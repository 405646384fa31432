-- ===== src/FuncInfo.antt =====
-- include/Optimize/FuncInfo.hh: which functions are pure.
pub mod Marks
pub mod Started
pub mod Sound
pub mod Sample
mod Tests
use poly_cminus.Prelude.{
  ℕ, zero, suc, Bool, true, false, not, ◌&&◌, ◌||◌, if◌then◌else◌, Option, none, some, ◌>>=◌, List,
  [], ◌∷◌, ◌++◌,
}
use poly_cminus.Uses.{Use, Store, put, operand_at}
use poly_cminus.Types.{Ty, is_integer_type, is_float_type, is_pointer_type}
use poly_cminus.IrCheck.Values.{Kind, Module, is_instruction}
use poly_cminus.Worklist.{Pending, each, work}

-- What the pass asks of the module besides: the types of values and of parameters, which function is
-- `main`, and in which one an instruction stands.
pub record Program : Type 0 where
  pub values : Module
  pub type_of : ℕ → Ty
  pub params : ℕ → List Ty
  pub is_main : ℕ → Bool
  pub get_function : ℕ → ℕ

-- `is_pure`, without a key that was not met.
abbrev pub Pure : Type 0
Pure = ℕ → Option Bool

abbrev pub is_alloca : Kind → Bool
is_alloca Kind.alloca = true
is_alloca k = false

-- `is_pure[func]`, false for a new key.
abbrev pub says_pure : Option Bool → Bool
says_pure none = false
says_pure (some pure) = pure

-- A pure function that uses an impure one is impure, and looked at in its turn.
abbrev pub mark_caller : ℕ → Pending Pure → Pending Pure
mark_caller f s =
    if says_pure (s.flags f)
    then record { flags = put s.flags f (some false); queue = s.queue ++ f ∷ [] }
    else record s { flags = put s.flags f (some false) }

module _ (p : Program) where
  abbrev pub get_operand_of : ℕ → ℕ → Option ℕ
  get_operand_of i n = operand_at (p.values.store.operands i) n

  -- The first operand of a pointer type.
  abbrev pub pointer_operand : List (Option ℕ) → Option (Option ℕ)
  pointer_operand [] = some none
  pointer_operand (none ∷ os) = none
  pointer_operand (some op ∷ os) =
      if is_pointer_type (p.type_of op) then some (some op) else pointer_operand os

  -- `none` is a null operand, or a chain of addresses longer than the fuel.
  unfoldable pub get_first_addr : ℕ → ℕ → Option ℕ
  get_first_addr zero val = none
  get_first_addr (suc fuel) val = elim (is_instruction (p.values.class_of val)) [
    | false ↦ some val
    | true ↦ elim (p.values.kind val) [
      | Kind.alloca ↦ some val
      | Kind.load ↦ some val
      | Kind.getelementptr ↦ get_operand_of val 0 >>= get_first_addr fuel
      | _ ↦ pointer_operand (p.values.store.operands val) >>= λ o. elim o [
        | none ↦ some val
        | some op ↦ get_first_addr fuel op
      ]
    ]
  ]

  abbrev pub is_local : ℕ → Option Bool
  is_local addr = some (is_instruction (p.values.class_of addr) && is_alloca (p.values.kind addr))

  -- A load's address is its operand 0, a store's one its operand 1.
  abbrev pub is_local_load : ℕ → ℕ → Option Bool
  is_local_load fuel i = (get_operand_of i 0 >>= get_first_addr fuel) >>= is_local

  abbrev pub is_local_store : ℕ → ℕ → Option Bool
  is_local_store fuel i = (get_operand_of i 1 >>= get_first_addr fuel) >>= is_local

  abbrev pub is_side_effect_inst : ℕ → ℕ → Option Bool
  is_side_effect_inst fuel i = elim (p.values.kind i) [
    | Kind.store ↦ is_local_store fuel i >>= λ b. some (not b)
    | Kind.load ↦ is_local_load fuel i >>= λ b. some (not b)
    | _ ↦ some false
  ]

  abbrev pub all_scalar : List Ty → Bool
  all_scalar [] = true
  all_scalar (t ∷ ts) = (is_integer_type t || is_float_type t) && all_scalar ts

  -- The loop over instructions, which stops at the first one with a side effect.
  abbrev pub has_no_side_effect : ℕ → List ℕ → Option Bool
  has_no_side_effect fuel [] = some true
  has_no_side_effect fuel (i ∷ is) = is_side_effect_inst fuel i >>= λ effect.
      if effect then some false else has_no_side_effect fuel is

  abbrev pub blocks_pure : ℕ → List ℕ → Option Bool
  blocks_pure fuel [] = some true
  blocks_pure fuel (b ∷ bs) = has_no_side_effect fuel (p.values.instructions b) >>= λ pure.
      if pure then blocks_pure fuel bs else some false

  abbrev pub is_declaration : List ℕ → Bool
  is_declaration [] = true
  is_declaration (b ∷ bs) = false

  -- What `trivial_mark` sets for a function.
  unfoldable pub trivial_mark : ℕ → ℕ → Option Bool
  trivial_mark fuel f =
      if is_declaration (p.values.basic_blocks f) || p.is_main f
      then some false
      else if all_scalar (p.params f)
      then blocks_pure fuel (p.values.basic_blocks f)
      else some false

  -- The first loop of `run`.
  abbrev pub mark_each : ℕ → List ℕ → Pending Pure → Option (Pending Pure)
  mark_each fuel [] s = some s
  mark_each fuel (f ∷ fs) s = trivial_mark fuel f >>= λ pure. mark_each fuel fs (record {
    flags = put s.flags f (some pure);
    queue = if pure then s.queue else s.queue ++ f ∷ [];
  })

  abbrev pub process_uses : List Use → Pending Pure → Pending Pure
  process_uses [] s = s
  process_uses (entry ∷ uses) s =
      if is_instruction (p.values.class_of entry.user)
      then process_uses uses (mark_caller (p.get_function entry.user) s)
      else process_uses uses s

  abbrev pub process : ℕ → Pending Pure → Option (Pending Pure)
  process f s = some (process_uses (p.values.store.use_list f) s)

  -- `run`, on fuel for the chains of addresses and for the worklist.
  unfoldable pub run : ℕ → ℕ → Option Pure
  run depth fuel =
      mark_each depth p.values.functions (record { flags = λ f. none; queue = [] }) >>= λ s.
      work process fuel s >>= λ s'. some s'.flags

-- `is_pure_function`, which exits for a function that was not met.
abbrev pub is_pure_function : Pure → ℕ → Option Bool
is_pure_function pure f = pure f
