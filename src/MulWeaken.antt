-- ===== src/MulWeaken.antt =====
-- include/Optimize/MulWeaken.hh: a multiplication by a positive constant c becomes a shift, where
-- c, c + 1 or c - 1 is a power of two.
pub mod Exponent
mod Shift
pub mod Weakens
pub mod Sound
mod Tests
use poly_cminus.Prelude.{
  ℕ, zero, suc, ◌+◌, ◌-◌, ◌%◌, ◌^◌, bit_and, Bool, true, false, ltb, leb, ◌==◌, ◌||◌, if◌then◌else◌,
  Option, none, some, ◌>>=◌, List, [], ◌∷◌,
}
use poly_cminus.Ir.{
  OpId, add, sub, mul, shl, IntTy, i1, i32, i64, Value, const_int, ref, Inst, binary,
}
use poly_cminus.Ir.Word.{arithmetic_shift}
use poly_cminus.Ir.Rewrite.{Rule, Rewrite, unchanged, run_function}

-- The values 0, -1, 1 of the loop's variable `sub`.
pub data Distance : Type 0 where
  exact below above : Distance

-- `const_value - sub`, as an `int`.
abbrev pub shifted_const : ℕ → Distance → ℕ
shifted_const c exact = c
shifted_const c below = (c + 1) % 2 ^ 32
shifted_const c above = (c + 2 ^ 32 - 1) % 2 ^ 32

-- `(const_value_ & (const_value_ - 1)) == 0`
unfoldable pub is_power : ℕ → Bool
is_power c = bit_and c ((c + 2 ^ 32 - 1) % 2 ^ 32) == 0

-- `for (; const_value_ >> (pow + 1); pow++);` on fuel: `none` when it is used up.
unfoldable pub exponent : ℕ → ℕ → ℕ → Option ℕ
exponent zero c pow = none
exponent (suc fuel) c pow =
    let rest = exponent fuel c (pow + 1) in
    if arithmetic_shift (2 ^ 32) c (2 ^ (pow + 1)) == 0 then some pow else rest

-- `utils::is_const`, on the operands of an integer instruction.
abbrev pub is_const : Value → Bool
is_const (const_int t c) = true
is_const (ref x) = false

abbrev pub get_value : Value → ℕ
get_value (const_int t c) = c
get_value (ref x) = 0

-- `ConstantInt::get(pow, m_)` for 32 bits, `ConstantInt::get_i64(pow, m_)` otherwise.
abbrev pub shl_op_c : IntTy → ℕ → Value
shl_op_c i32 pow = const_int i32 pow
shl_op_c i64 pow = const_int i64 pow
shl_op_c i1 pow = const_int i64 pow

-- The instructions inserted before the multiplication of `v`, and its replacement. It stays in
-- the block, without uses.
unfoldable pub weakened : ℕ → IntTy → Value → Distance → ℕ → Rewrite
weakened next t v distance zero = record {
  emitted = [];
  new_val = some v;
  kept = true;
  skips = false;
}
weakened next t v exact (suc p) = record {
  emitted = binary next shl t v (shl_op_c t (suc p)) ∷ [];
  new_val = some (ref next);
  kept = true;
  skips = false;
}
weakened next t v above (suc p) = record {
  emitted = binary next shl t v (shl_op_c t (suc p)) ∷ binary (next + 1) add t (ref next) v ∷ [];
  new_val = some (ref (next + 1));
  kept = true;
  skips = false;
}
weakened next t v below (suc p) = record {
  emitted = binary next shl t v (shl_op_c t (suc p)) ∷ binary (next + 1) sub t (ref next) v ∷ [];
  new_val = some (ref (next + 1));
  kept = true;
  skips = false;
}

-- `for (int sub : {0, -1, 1})`: the first distance at which the constant is a power decides.
unfoldable pub weaken : ℕ → IntTy → Value → ℕ → List Distance → Option Rewrite
unfolding is_power
weaken next t v c [] = some unchanged
weaken next t v c (distance ∷ rest) =
    if is_power (shifted_const c distance)
    then (exponent 32 (shifted_const c distance) 0 >>= λ pow. some (weakened next t v distance pow))
    else weaken next t v c rest

-- The body of the loop for `const_value` and `non_const_op`.
unfoldable pub weaken_by : ℕ → IntTy → Value → ℕ → Option Rewrite
unfolding weaken
weaken_by next t v c =
    if c == 0 || leb (2 ^ 31) c
    then some unchanged
    else weaken next t v c (exact ∷ below ∷ above ∷ [])

unfoldable pub mul_weaken_rule : Rule
unfolding weaken_by
mul_weaken_rule next mul t a b =
    if is_const a
    then weaken_by next t b (get_value a)
    else if is_const b
    then weaken_by next t a (get_value b)
    else some unchanged
mul_weaken_rule next op t a b = some unchanged

-- `run`, on one function.
unfoldable pub run : ℕ → List (List Inst) → Option (List (List Inst))
unfolding mul_weaken_rule
run = run_function mul_weaken_rule
