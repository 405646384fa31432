-- ===== src/Prelude/Lists.antt =====
-- Lists measured by native numbers, and a predicate on every element.
use Prim.Native.Nat.{ℕ, suc, ◌+◌}
use poly_cminus.Prelude.Tests.{◌==◌, if◌then◌else◌, Bool-cases, ==→eq}
use mathlib.Core.Path.{◌≡◌, sym, subst}
use mathlib.Core.Logic.{◌⊎◌, inl, inr}
use mathlib.Core.List.{List, [], ◌∷◌, ◌++◌, Memᴰ}
use mathlib.Core.List.Memᴰ
use native.Mathlib.Omega.{arith}

module _ {ℓ} {A : Type ℓ} where
  abbrev pub length : List A → ℕ
  length [] = 0
  length (x ∷ xs) = suc (length xs)

  pub length-append : (xs ys : List A) → length (xs ++ ys) ≡ length xs + length ys
  length-append [] ys = omega arith
  length-append (x ∷ xs) ys = omega (arith, length-append xs ys)

abbrev pub All {ℓ κ} : {A : Type ℓ} → (A → Type κ) → List A → Type κ
All P [] = Unit
All P (x ∷ xs) = P x × All P xs

pub All-Memᴰ {ℓ κ} :
    {A : Type ℓ} (P : A → Type κ) (xs : List A) {x : A} → All P xs → Memᴰ x xs → P x
All-Memᴰ P [] all m = absurd (Memᴰ.not-nil m)
All-Memᴰ P (y ∷ xs) (p, all) m = elim (Memᴰ.cases_cons m) [
  | inl e ↦ subst P (sym e) p
  | inr m' ↦ All-Memᴰ P xs all m'
]

pub Memᴰ-append {ℓ} :
    {A : Type ℓ} (xs : List A) {ys : List A} {y : A} → Memᴰ y (xs ++ ys) → Memᴰ y xs ⊎ Memᴰ y ys
Memᴰ-append [] m = inr m
Memᴰ-append (x ∷ xs) m = elim (Memᴰ.cases_cons m) [
  | inl e ↦ inl (Memᴰ.head e)
  | inr m' ↦ elim (Memᴰ-append xs m') [ inl n ↦ inl (Memᴰ.tail n) | inr n ↦ inr n ]
]

-- A finite map, with what it gives for other keys.
abbrev pub lookup {ℓ} : {A : Type ℓ} → A → List (ℕ × A) → ℕ → A
lookup d [] x = d
lookup d ((k, v) ∷ rest) x = if x == k then v else lookup d rest x

pub lookup-All {ℓ κ} :
    {A : Type ℓ} (P : ℕ → A → Type κ) (d : A) (table : List (ℕ × A))
    → ((x : ℕ) → P x d)
    → All (λ (entry : ℕ × A). P entry.0 entry.1) table
    → (x : ℕ) → P x (lookup d table x)
lookup-All P d [] h all x = h x
lookup-All P d ((k, v) ∷ rest) h (p, all) x = elim (Bool-cases (x == k)) [
  | inl e ↦ rw e (subst (λ k. P k v) (sym (==→eq x k e)) p)
  | inr e ↦ rw e (lookup-All P d rest h all x)
]
