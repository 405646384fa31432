-- ===== src/ConstFold.antt =====
-- include/Optimize/ConstFold.hh: integer operators and comparisons of constants.
pub mod Operators
pub mod Comparisons
mod Tests
use poly_cminus.Prelude.{
  ℕ, ◌+◌, ◌-◌, ◌*◌, ◌/◌, ◌%◌, ◌^◌, bit_and, Bool, true, false, not, ltb, leb, ◌==◌, ◌&&◌, ◌||◌,
  if◌then◌else◌, Option, none, some,
}
use poly_cminus.Ir.{
  OpId, add, sub, mul, sdiv, srem, shl, lshr, ashr, and_, IntTy, i1, i32, i64, Value, const_int,
  ref,
}
use poly_cminus.Ir.Word.{arithmetic_shift, signed_quotient, signed_remainder}

-- `ret` for the operands of type `int`, as patterns of 32 bits: additions, subtractions and
-- products wrap around. `none` is what C++ leaves undefined: the quotient of the smallest `int`
-- by -1, which does not fit, and a shift by less than 0 or more than 31.
unfoldable pub fold_int : OpId → ℕ → ℕ → Option ℕ
fold_int add lval rval = some ((lval + rval) % 2 ^ 32)
fold_int sub lval rval = some ((lval + 2 ^ 32 - rval) % 2 ^ 32)
fold_int mul lval rval = some (lval * rval % 2 ^ 32)
fold_int sdiv lval rval =
    if rval == 0
    then some 0
    else if lval == 2 ^ 31 && rval == 2 ^ 32 - 1
    then none
    else some (signed_quotient (2 ^ 32) lval rval)
fold_int srem lval rval =
    if rval == 0
    then some 0
    else if lval == 2 ^ 31 && rval == 2 ^ 32 - 1
    then none
    else some (signed_remainder (2 ^ 32) lval rval)
fold_int shl lval rval = if ltb rval 32 then some (lval * 2 ^ rval % 2 ^ 32) else none
fold_int lshr lval rval = if ltb rval 32 then some (lval / 2 ^ rval) else none
fold_int ashr lval rval =
    if ltb rval 32 then some (arithmetic_shift (2 ^ 32) lval (2 ^ rval)) else none
fold_int and_ lval rval = some (bit_and lval rval)

-- What `eval` returns: a null pointer when an operand is no integer constant.
pub data Folded : Type 0 where
  null undefined : Folded
  folded : Value → Folded

-- `ConstantInt::get` or `ConstantInt::get_i64`, by the size of the left operand's type.
abbrev pub result_type : IntTy → IntTy
result_type i64 = i64
result_type i32 = i32
result_type i1 = i32

abbrev pub returned : IntTy → Option ℕ → Folded
returned t none = undefined
returned t (some ret) = folded (const_int (result_type t) ret)

unfoldable pub eval : OpId → Value → Value → Folded
unfolding fold_int
eval op (const_int t lval) (const_int u rval) = returned t (fold_int op lval rval)
eval op lhs rhs = null

pub data CmpOp : Type 0 where
  eq ne gt ge lt le : CmpOp

-- `lval < rval` for operands of type `int`.
abbrev pub int_lt : ℕ → ℕ → Bool
int_lt lval rval =
    if ltb lval (2 ^ 31)
    then if ltb rval (2 ^ 31) then ltb lval rval else false
    else if ltb rval (2 ^ 31)
    then true
    else ltb lval rval

unfoldable pub compare_int : CmpOp → ℕ → ℕ → Bool
compare_int eq lval rval = lval == rval
compare_int ne lval rval = not (lval == rval)
compare_int gt lval rval = int_lt rval lval
compare_int ge lval rval = not (int_lt lval rval)
compare_int lt lval rval = int_lt lval rval
compare_int le lval rval = not (int_lt rval lval)

abbrev pub bool_const : Bool → Value
bool_const b = const_int i1 (if b then 1 else 0)

-- The second overload of `eval`, on integer constants.
unfoldable pub eval_cmp : CmpOp → Value → Value → Folded
unfolding compare_int
eval_cmp op (const_int t lval) (const_int u rval) = folded (bool_const (compare_int op lval rval))
eval_cmp op lhs rhs = null
