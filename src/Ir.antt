-- ===== src/Ir.antt =====
-- The part of the SSA form that the arithmetic passes read and write: include/MIR_new/Constant.h,
-- include/MIR_new/Instruction.h and the use lists of src/MIR_new/Value.cc.
pub mod Word
pub mod Exec
pub mod Rewrite
pub mod Sample
pub mod Simulation
use poly_cminus.Prelude.{ℕ, ◌^◌, ◌==◌, if◌then◌else◌, List, [], ◌∷◌, map}

-- The integer types of `Type`.
pub data IntTy : Type 0 where
  i1 i32 i64 : IntTy

abbrev pub num_bits : IntTy → ℕ
num_bits i1 = 1
num_bits i32 = 32
num_bits i64 = 64

-- The number of words of a type.
abbrev pub modulus : IntTy → ℕ
modulus t = 2 ^ num_bits t

-- The integer operators of `Instruction::OpID` that the passes and `ConstFold` know.
pub data OpId : Type 0 where
  add sub mul sdiv srem shl lshr ashr and_ : OpId

-- A `ConstantInt` has a type and a field `int value_`, here its 32-bit pattern. Any other value
-- (instruction, argument, global) is its identity, as pointers are in the source.
pub data Value : Type 0 where
  const_int : IntTy → ℕ → Value
  ref : ℕ → Value

-- A binary integer instruction, or any other instruction with its operands.
pub data Inst : Type 0 where
  binary : ℕ → OpId → IntTy → Value → Value → Inst
  other : ℕ → ℕ → List Value → Inst

abbrev pub dest : Inst → ℕ
dest (binary d _ _ _ _) = d
dest (other d _ _) = d

-- `replace_all_use_with`, seen from one operand: a use of `d` becomes a use of `v`.
abbrev pub replace : ℕ → Value → Value → Value
replace d v (const_int t c) = const_int t c
replace d v (ref x) = if x == d then v else ref x

-- The replacements made so far, the newest first.
abbrev pub Replacements : Type 0
Replacements = List (record { old : ℕ; new : Value })

abbrev pub replaced : Replacements → Value → Value
replaced [] u = u
replaced (r ∷ rs) u = replace r.old r.new (replaced rs u)

-- An instruction whose operands went through the replacements.
abbrev pub replaced_inst : Replacements → Inst → Inst
replaced_inst rs (binary d op t a b) = binary d op t (replaced rs a) (replaced rs b)
replaced_inst rs (other d k args) = other d k (map (replaced rs) args)
