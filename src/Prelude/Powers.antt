-- ===== src/Prelude/Powers.antt =====
-- Powers of two and remainders at a variable modulus.
use Prim.Native.Nat.{ℕ, zero, suc, ◌+◌, ◌*◌, ◌/◌, ◌%◌, ◌^◌, ◌≤◌, ◌<◌}
use mathlib.Core.Path.{◌≡◌, sym, ap, ◌∙◌, ◌≡⟨◌⟩◌, ◌∎}
use native.Mathlib.Nat.{
  pow-suc, one-le-pow, add-mul, mod-add-div', add-mul-mod_self_right, mul_comm, mul_assoc,
  mul_right_comm, pow-le-pow_right, add-zero,
}
use native.Mathlib.Omega.{arith}

pub two-pow-pos : (k : ℕ) → 0 < 2 ^ k
two-pow-pos k = one-le-pow k 2 (omega arith)

pub two-pow-suc : (k : ℕ) → 2 ^ suc k ≡ 2 ^ k * 2
two-pow-suc k = pow-suc 2 k

pub two-pow_mono : (j k : ℕ) → j ≤ k → 2 ^ j ≤ 2 ^ k
two-pow_mono j k h = pow-le-pow_right (omega arith) h

pub two-pow-add : (j k : ℕ) → 2 ^ (j + k) ≡ 2 ^ j * 2 ^ k
two-pow-add j zero = simp add-zero (omega arith)
two-pow-add j (suc k) =
    rw (add_suc j k, two-pow-suc (j + k), two-pow-suc k, two-pow-add j k)
      (mul_assoc (2 ^ j) (2 ^ k) 2)
  where
    add_suc : (j k : ℕ) → j + suc k ≡ suc (j + k)
    add_suc j k = omega arith

-- A factor may be reduced before a product is.
pub mul-mod-mod_left : (a b m : ℕ) → a % m * b % m ≡ a * b % m
mul-mod-mod_left a b m =
    a % m * b % m
    ≡⟨ sym (add-mul-mod_self_right (a % m * b) (a / m * b) m) ⟩ (a % m * b + a / m * b * m) % m
    ≡⟨ ap (λ (t : ℕ). (a % m * b + t) % m) (mul_right_comm (a / m) b m) ⟩
      (a % m * b + a / m * m * b) % m
    ≡⟨ ap (λ (t : ℕ). t % m) (sym (add-mul (a % m) (a / m * m) b)) ⟩ (a % m + a / m * m) * b % m
    ≡⟨ ap (λ (t : ℕ). t * b % m) (mod-add-div' a m) ⟩ a * b % m ∎

pub mul-mod-mod_right : (a b m : ℕ) → a * (b % m) % m ≡ a * b % m
mul-mod-mod_right a b m =
    ap (λ (t : ℕ). t % m) (mul_comm a (b % m))
    ∙ mul-mod-mod_left b a m
    ∙ ap (λ (t : ℕ). t % m) (mul_comm b a)
