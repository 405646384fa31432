-- ===== src/MulWeaken/Exponent.antt =====
-- The loop that finds the exponent.
use poly_cminus.Prelude.{
  ℕ, zero, suc, ◌+◌, ◌-◌, ◌/◌, ◌%◌, ◌^◌, ◌≤◌, ◌<◌, ◌≡◌, refl, true, false, ltb, ◌==◌, if◌then◌else◌,
  none, some, arith, lt→ltb, ==→eq, ap, two-pow-pos, two-pow-suc, two-pow_mono, bit_and,
  power_of_two,
}
use native.Mathlib.Decide.{dec_lt, ℕ_discrete}
use native.Mathlib.Nat.{div-eq_of_lt, le-div_iff_mul-le}
use native.Mathlib.Numerals.{add-one}
use poly_cminus.Ir.Word.{arithmetic_shift}
use poly_cminus.MulWeaken.{exponent, is_power}

div-eq-zero : (c p : ℕ) → 0 < p → (c / p == 0) ≡ ltb c p
div-eq-zero c p h = elim (dec_lt c p) [
  | yes l ↦ let z : c / p ≡ 0 = div-eq_of_lt l in rw (z, lt→ltb c p l)
  | no ge ↦ let z : 1 ≤ c / p = (le-div_iff_mul-le h).1 (omega arith) in ground arith
]

-- A non-negative `int` shifts to zero exactly beyond its highest bit.
shift_step :
    (fuel c pow : ℕ)
    → c < 2 ^ 31
    → exponent (suc fuel) c pow
      ≡ (if ltb c (2 ^ (pow + 1)) then some pow else exponent fuel c (pow + 1))
unfolding exponent
shift_step fuel c pow h =
    let plain : arithmetic_shift (2 ^ 32) c (2 ^ (pow + 1)) ≡ c / 2 ^ (pow + 1) = ground arith in
    rw (plain, div-eq-zero c (2 ^ (pow + 1)) (two-pow-pos (pow + 1)))

-- Enough fuel: the loop returns the exponent of a power of two.
pub exponent-two-pow :
    (fuel p pow : ℕ)
    → 2 ^ p < 2 ^ 31
    → pow ≤ p
    → p < pow + fuel
    → exponent fuel (2 ^ p) pow ≡ some p
exponent-two-pow zero p pow h le enough = absurd (omega arith)
exponent-two-pow (suc fuel) p pow h le enough = elim (ℕ_discrete pow p) [
  | yes same ↦
      let bigger : 2 ^ p < 2 ^ (pow + 1) =
        rw (same, add-one p) (omega (arith, two-pow-suc p, two-pow-pos p)) in
      rw (shift_step fuel (2 ^ p) pow h, lt→ltb _ _ bigger) (ap some same)
  | no differs ↦
      let stays : ltb (2 ^ p) (2 ^ (pow + 1)) ≡ false =
        ground (arith, two-pow_mono (pow + 1) p (omega arith)) in
      rw (shift_step fuel (2 ^ p) pow h, stays)
        (exponent-two-pow fuel p (pow + 1) h (omega arith) (omega arith))
]

-- From a negative `int` the loop never comes out, whatever the fuel.
pub exponent-negative : (fuel c pow : ℕ) → 2 ^ 31 ≤ c → c < 2 ^ 32 → exponent fuel c pow ≡ none
unfolding exponent
exponent-negative zero c pow h h' = refl
exponent-negative (suc fuel) c pow h h' =
    ground (arith, two-pow-pos (pow + 1), exponent-negative fuel c (pow + 1) h h')

-- The test that the loop stands behind.
pub is_power-two-pow : (c : ℕ) → 0 < c → c < 2 ^ 32 → is_power c ≡ true → (p : ℕ) × (c ≡ 2 ^ p)
unfolding is_power
is_power-two-pow c pos h e =
    let wraps : (c + 2 ^ 32 - 1) % 2 ^ 32 ≡ c - 1 = omega arith in
    power_of_two c pos (rw wraps at (==→eq (bit_and c ((c + 2 ^ 32 - 1) % 2 ^ 32)) 0 e))

pub exponent-lt : (p k : ℕ) → 2 ^ p < 2 ^ k → p < k
exponent-lt p k h = elim (dec_lt p k) [
  | yes l ↦ l
  | no ge ↦ absurd (omega (arith, two-pow_mono k p (omega arith)))
]
