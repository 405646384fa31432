-- ===== src/UselessOperationEli.antt =====
-- include/Optimize/UselessOperationEli.hh: binary instructions with a neutral or an absorbing
-- constant operand are replaced and leave their block.
pub mod Sound
mod Tests
use poly_cminus.Prelude.{ℕ, Bool, false, ◌||◌, ◌==◌, if◌then◌else◌, Option, none, some, List, []}
use poly_cminus.Ir.{
  OpId, add, sub, mul, sdiv, srem, shl, lshr, ashr, and_, IntTy, i32, Value, const_int, ref, Inst,
}
use poly_cminus.Ir.Rewrite.{Rule, unchanged, run_function}

-- `utils::get_const_int_val(v) == n`, on the field `value_` whatever the constant's type.
abbrev pub is_const_int : ℕ → Value → Bool
is_const_int n (const_int t c) = c == n
is_const_int n (ref x) = false

-- The replacement `new_val` of an integer instruction.
unfoldable pub simplified : OpId → Value → Value → Option Value
simplified add op1 op2 =
    if is_const_int 0 op1 then some op2 else if is_const_int 0 op2 then some op1 else none
simplified sub op1 op2 = if is_const_int 0 op2 then some op1 else none
simplified mul op1 op2 =
    if is_const_int 1 op1
    then some op2
    else if is_const_int 1 op2
    then some op1
    else if is_const_int 0 op1 || is_const_int 0 op2
    then some (const_int i32 0)
    else none
simplified sdiv op1 op2 =
    if is_const_int 1 op2
    then some op1
    else if is_const_int 0 op1
    then some (const_int i32 0)
    else none
simplified srem op1 op2 = none
simplified ashr op1 op2 = if is_const_int 0 op2 then some op1 else none
simplified and_ op1 op2 = if is_const_int 0 op2 then some op1 else none
simplified lshr op1 op2 = if is_const_int 0 op2 then some op1 else none
simplified shl op1 op2 = if is_const_int 0 op2 then some op1 else none

-- With a replacement the instruction is erased, and the iterator stands behind it.
unfoldable pub useless_rule : Rule
useless_rule next op t a b = elim (simplified op a b) [
  | none ↦ some unchanged
  | some v ↦ some (record { emitted = []; new_val = some v; kept = false; skips = false })
]

-- `run`, on one function.
unfoldable pub run : ℕ → List (List Inst) → Option (List (List Inst))
unfolding useless_rule
run = run_function useless_rule
