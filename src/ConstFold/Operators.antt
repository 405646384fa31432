-- ===== src/ConstFold/Operators.antt =====
-- Folding computes what the instruction computes.
use poly_cminus.Prelude.{
  ℕ, ◌+◌, ◌-◌, ◌%◌, ◌^◌, ◌<◌, ◌≤◌, ◌≡◌, refl, ap, ◌∙◌, bit_and-le_left, ◌≢◌, some, arith,
}
use native.Mathlib.Nat.{div-le_self, mod-le}
use poly_cminus.Ir.{
  OpId, add, sub, mul, sdiv, srem, shl, lshr, ashr, and_, i32, i64, Value, const_int,
}
use poly_cminus.Ir.Word.{word_op, apply_op, signed_quotient, signed_remainder, magnitude}
use poly_cminus.Ir.Word.Laws.{word_op-eq-some, word_op_lem}
use poly_cminus.Ir.Exec.{Env, value_of}
use poly_cminus.ConstFold.{fold_int, eval, folded}

-- The division that does not fit an `int`.
abbrev pub Overflows : OpId → ℕ → ℕ → Type 0
Overflows sdiv l r = (l ≡ 2 ^ 31) × (r ≡ 2 ^ 32 - 1)
Overflows srem l r = (l ≡ 2 ^ 31) × (r ≡ 2 ^ 32 - 1)
Overflows op l r = ⊥

fold_int-apply_op :
    (op : OpId) (l r x : ℕ)
    → ¬ Overflows op l r
    → apply_op 32 op l r ≡ some x
    → fold_int op l r ≡ some x
unfolding fold_int
fold_int-apply_op sdiv l r x fits h = ground arith
fold_int-apply_op srem l r x fits h = ground arith
fold_int-apply_op add l r x fits h = h
fold_int-apply_op sub l r x fits h = h
fold_int-apply_op mul l r x fits h = h
fold_int-apply_op shl l r x fits h = h
fold_int-apply_op lshr l r x fits h = h
fold_int-apply_op ashr l r x fits h = h
fold_int-apply_op and_ l r x fits h = h

pub quotient_word : (l r : ℕ) → l < 2 ^ 32 → r < 2 ^ 32 → signed_quotient (2 ^ 32) l r < 2 ^ 32
quotient_word l r hl hr = ground (arith, div-le_self (magnitude (2 ^ 32) l) (magnitude (2 ^ 32) r))

remainder_word : (l r : ℕ) → l < 2 ^ 32 → r < 2 ^ 32 → signed_remainder (2 ^ 32) l r < 2 ^ 32
remainder_word l r hl hr = ground (arith, mod-le (magnitude (2 ^ 32) l) (magnitude (2 ^ 32) r))

fold_int-word :
    (op : OpId) (l r x : ℕ) → l < 2 ^ 32 → r < 2 ^ 32 → fold_int op l r ≡ some x → x < 2 ^ 32
unfolding fold_int
fold_int-word add l r x hl hr h = ground arith
fold_int-word sub l r x hl hr h = ground arith
fold_int-word mul l r x hl hr h = ground arith
fold_int-word sdiv l r x hl hr h = ground (arith, quotient_word l r hl hr)
fold_int-word srem l r x hl hr h = ground (arith, remainder_word l r hl hr)
fold_int-word shl l r x hl hr h = ground arith
fold_int-word lshr l r x hl hr h = ground (arith, div-le_self l (2 ^ r))
fold_int-word ashr l r x hl hr h = ground (arith, div-le_self l (2 ^ r))
fold_int-word and_ l r x hl hr h = ground (arith, bit_and-le_left l r)

-- Wherever an operation of i32 on words has a value, and is no quotient or remainder of the
-- smallest `int` by -1, folding gives a constant with this value.
pub eval-word_op :
    (e : Env) (op : OpId) (l r x : ℕ)
    → l < 2 ^ 32
    → r < 2 ^ 32
    → ¬ Overflows op l r
    → word_op 32 op (value_of e (const_int i32 l)) (value_of e (const_int i32 r)) ≡ some x
    → (v : Value) × (eval op (const_int i32 l) (const_int i32 r) ≡ folded v) × (value_of e v ≡ x)
unfolding eval
eval-word_op e op l r x hl hr fits h =
    let left_value : value_of e (const_int i32 l) ≡ l = ground arith in
    let right_value : value_of e (const_int i32 r) ≡ r = ground arith in
    let h' : word_op 32 op l r ≡ some x = rw (left_value, right_value) at h in
    let (p, q, value) = word_op-eq-some 32 op l r h' in
    let result = fold_int-apply_op op l r x fits value in
    let small = fold_int-word op l r x hl hr result in (const_int i32 x, rw result, ground arith)

-- Two i64 constants whose sum needs more than 31 bits: the instruction has the sum, and folding
-- returns a constant that has another value.
pub eval-i64_overflow :
    (e : Env) (l r : ℕ)
    → l < 2 ^ 31
    → r < 2 ^ 31
    → 2 ^ 31 ≤ l + r
    → (word_op 64 add (value_of e (const_int i64 l)) (value_of e (const_int i64 r)) ≡ some (l + r))
      × (v : Value) × (eval add (const_int i64 l) (const_int i64 r) ≡ folded v)
      × (value_of e v ≢ l + r)
unfolding eval fold_int
eval-i64_overflow e l r hl hr large =
    let left_value : value_of e (const_int i64 l) ≡ l = ground arith in
    let right_value : value_of e (const_int i64 r) ≡ r = ground arith in
    let whole : (l + r) % 2 ^ 64 ≡ l + r = omega arith in
    let wraps : (l + r) % 2 ^ 32 ≡ l + r = omega arith in
    let differs : value_of e (const_int i64 ((l + r) % 2 ^ 32)) ≢ l + r =
      λ p. absurd (ground arith) in
    (
      rw (left_value, right_value)
          (word_op_lem 64 add l r (omega arith) (omega arith) ∙ ap some whole),
      const_int i64 ((l + r) % 2 ^ 32),
      refl,
      differs,
    )
