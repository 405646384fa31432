-- ===== src/Prelude/Bits.antt =====
-- Bitwise conjunction by its lowest digit, and the test of src code for a power of two.
use Prim.Native.Nat.{
  ℕ, zero, suc, ◌+◌, ◌-◌, ◌*◌, ◌/◌, ◌%◌, ◌^◌, ◌≤◌, ◌<◌, min, bit_and, digits, bit_and-bitwise,
}
use mathlib.Core.Path.{◌≡◌, refl, ap}
use native.Mathlib.Omega.{arith}
use native.Mathlib.Decide.{dec_lt, ℕ_discrete}
use poly_cminus.Prelude.Powers.{two-pow-suc}

-- The digits of a conjunction do not depend on the fuel, once there is enough of it.
conj_fuel :
    (f g x y : ℕ) → x ≤ f → x ≤ g → digits (λ _. zero) min f x y ≡ digits (λ _. zero) min g x y
conj_fuel zero zero x y p q = refl
conj_fuel (suc f) (suc g) zero y p q = refl
conj_fuel zero (suc g) zero y p q = refl
conj_fuel (suc f) zero zero y p q = refl
conj_fuel (suc f) (suc g) (suc x) y p q =
    rw (conj_fuel f g (suc x / 2) (y / 2) (omega arith) (omega arith))
conj_fuel zero g (suc x) y p q = absurd (omega arith)
conj_fuel (suc f) zero (suc x) y p q = absurd (omega arith)

pub bit_and-zero_left : (y : ℕ) → bit_and 0 y ≡ 0
bit_and-zero_left y = bit_and-bitwise 0 y

pub bit_and-halves : (x y : ℕ) → bit_and x y ≡ bit_and (x / 2) (y / 2) * 2 + min (x % 2) (y % 2)
bit_and-halves zero y = omega (arith, bit_and-zero_left y, bit_and-zero_left (y / 2))
bit_and-halves (suc x) y = omega (
  arith,
  bit_and-bitwise (suc x) y,
  bit_and-bitwise (suc x / 2) (y / 2),
  conj_fuel x (suc x / 2) (suc x / 2) (y / 2) (omega arith) (omega arith),
)

bit_and-zero_below : (f x : ℕ) → x ≤ f → bit_and x 0 ≡ 0
bit_and-zero_below f zero h = refl
bit_and-zero_below (suc f) (suc x) h =
    omega (arith, bit_and-halves (suc x) 0, bit_and-zero_below f (suc x / 2) (omega arith))
bit_and-zero_below zero (suc x) h = absurd (omega arith)

pub bit_and-zero_right : (x : ℕ) → bit_and x 0 ≡ 0
bit_and-zero_right x = bit_and-zero_below x x (omega arith)

bit_and_self_below : (f x : ℕ) → x ≤ f → bit_and x x ≡ x
bit_and_self_below f zero h = refl
bit_and_self_below (suc f) (suc x) h =
    omega (arith, bit_and-halves (suc x) (suc x), bit_and_self_below f (suc x / 2) (omega arith))
bit_and_self_below zero (suc x) h = absurd (omega arith)

-- `x & (x - 1)` is zero at powers of two only.
power_of_two_below : (f x : ℕ) → x ≤ f → 0 < x → bit_and x (x - 1) ≡ 0 → (p : ℕ) × (x ≡ 2 ^ p)
power_of_two_below zero x h pos e = absurd (omega arith)
power_of_two_below (suc f) x h pos e = elim (dec_lt 1 x) [
  | no small ↦ (0, omega arith)
  | yes large ↦ elim (ℕ_discrete (x % 2) 0) [
    | yes even ↦
        let half : (x - 1) / 2 ≡ x / 2 - 1 = omega arith in
        let zero_half : bit_and (x / 2) (x / 2 - 1) ≡ 0 =
          omega (arith, bit_and-halves x (x - 1), ap (bit_and (x / 2)) half) in
        let (p, q) = power_of_two_below f (x / 2) (omega arith) (omega arith) zero_half in
        (suc p, omega (arith, two-pow-suc p))
    | no odd ↦
        let half : (x - 1) / 2 ≡ x / 2 = omega arith in
        absurd (
          omega (
            arith,
            bit_and-halves x (x - 1),
            ap (bit_and (x / 2)) half,
            bit_and_self_below (x / 2) (x / 2) (omega arith),
          ))
  ]
]

pub power_of_two : (x : ℕ) → 0 < x → bit_and x (x - 1) ≡ 0 → (p : ℕ) × (x ≡ 2 ^ p)
power_of_two x = power_of_two_below x x (omega arith)

bit_and-le_below : (f x y : ℕ) → x ≤ f → bit_and x y ≤ x
bit_and-le_below f zero y h = omega (arith, bit_and-zero_left y)
bit_and-le_below (suc f) (suc x) y h = omega (
  arith,
  bit_and-halves (suc x) y,
  bit_and-le_below f (suc x / 2) (y / 2) (omega arith),
  digit_min (suc x % 2) (y % 2),
)
  where
    digit_min : (a b : ℕ) → min a b ≤ a
    digit_min a b = omega arith
bit_and-le_below zero (suc x) y h = absurd (omega arith)

pub bit_and-le_left : (x y : ℕ) → bit_and x y ≤ x
bit_and-le_left x y = bit_and-le_below x x y (omega arith)
