-- ===== src/Prelude/Masks.antt =====
-- Conjunctions with runs of ones.
use Prim.Native.Nat.{ℕ, zero, suc, ◌+◌, ◌-◌, ◌*◌, ◌/◌, ◌%◌, ◌^◌, ◌<◌, bit_and}
use mathlib.Core.Path.{◌≡◌, sym, ap, ◌∙◌}
use native.Mathlib.Omega.{arith}
use native.Mathlib.Nat.{
  div-div-eq-div-mul, mul_comm, mul_assoc, mod-eq_of_lt, mod-lt, mod-add-div',
  add-mul-mod_self_right, div-one,
}
use poly_cminus.Prelude.Powers.{two-pow-suc, two-pow-pos}
use poly_cminus.Prelude.Bits.{bit_and-halves, bit_and-zero_right}

-- A remainder by twice a number, bit by bit.
mod-double : (y m : ℕ) → 0 < m → y % (m * 2) ≡ y / 2 % m * 2 + y % 2
mod-double y m pos =
    let r = y / 2 % m * 2 + y % 2 in
    let small : r < m * 2 = omega (arith, mod-lt (y / 2) pos) in
    let whole : r + y / 2 / m * (m * 2) ≡ y =
      omega (arith, mod-add-div' (y / 2) m, mul_assoc (y / 2 / m) m 2) in
    ap (λ (k : ℕ). k % (m * 2)) (sym whole)
    ∙ add-mul-mod_self_right r (y / 2 / m) (m * 2)
    ∙ mod-eq_of_lt small

bit_and-ones : (k y : ℕ) → bit_and y (2 ^ k - 1) ≡ y % 2 ^ k
bit_and-ones zero y = omega (arith, bit_and-zero_right y)
bit_and-ones (suc k) y =
    let half : (2 ^ suc k - 1) / 2 ≡ 2 ^ k - 1 = omega (arith, two-pow-suc k, two-pow-pos k) in
    omega (
      arith,
      bit_and-halves y (2 ^ suc k - 1),
      ap (bit_and (y / 2)) half,
      bit_and-ones k (y / 2),
      mod-double y (2 ^ k) (two-pow-pos k),
      ap (λ (m : ℕ). y % m) (two-pow-suc k),
      two-pow-suc k,
      two-pow-pos k,
    )

pub bit_and-mask : (l k y : ℕ) → bit_and y (2 ^ l * (2 ^ k - 1)) ≡ 2 ^ l * (y / 2 ^ l % 2 ^ k)
bit_and-mask zero k y =
    let plain : 2 ^ 0 * (2 ^ k - 1) ≡ 2 ^ k - 1 = omega arith in
    ap (bit_and y) plain
    ∙ bit_and-ones k y
    ∙ ap (λ (n : ℕ). n % 2 ^ k) (sym (div-one y))
    ∙ omega arith
bit_and-mask (suc l) k y =
    let z = 2 ^ k - 1 in
    let double : 2 ^ suc l * z ≡ 2 ^ l * z * 2 = omega (
      arith,
      ap (λ (n : ℕ). n * z) (two-pow-suc l),
      mul_assoc (2 ^ l) 2 z,
      mul_assoc (2 ^ l) z 2,
      ap (λ (n : ℕ). 2 ^ l * n) (mul_comm 2 z),
    ) in
    let half : 2 ^ suc l * z / 2 ≡ 2 ^ l * z = omega arith in
    let shifted : y / 2 / 2 ^ l ≡ y / 2 ^ suc l =
      div-div-eq-div-mul y 2 (2 ^ l) ∙ ap (λ (n : ℕ). y / n) (omega (arith, two-pow-suc l)) in
    let r = y / 2 ^ suc l % 2 ^ k in
    omega (
      arith,
      bit_and-halves y (2 ^ suc l * z),
      ap (bit_and (y / 2)) half,
      bit_and-mask l k (y / 2),
      ap (λ (n : ℕ). 2 ^ l * (n % 2 ^ k)) shifted,
      ap (λ (n : ℕ). n * r) (two-pow-suc l),
      mul_assoc (2 ^ l) 2 r,
      ap (λ (n : ℕ). 2 ^ l * n) (mul_comm 2 r),
      mul_assoc (2 ^ l) r 2,
    )
