-- ===== src/IrCheck/Lists.antt =====
-- What a loop that throws leaves, for the checks of src/Optimize/IRCheck.cc.
use mathlib.Core.List.{Memᴰ}
use mathlib.Core.List.Memᴰ
use poly_cminus.Prelude.{
  ℕ, suc, ◌≤◌, ◌==◌, ◌&&◌, ◌||◌, length, Bool, true, false, Bool-cases, inl, inr, Option, none,
  some, List, [], ◌∷◌, ◌≡◌, refl, sym, ap, ◌∙◌, ==→eq, eq→==, arith,
}
use poly_cminus.Dominators.Search.{has}
use poly_cminus.Dominators.Iteration.{is_block}
use poly_cminus.IrCheck.Values.{every, set_of, is_unique, Module}

pub &&-both : (a b : Bool) → (a && b) ≡ true → (a ≡ true) × (b ≡ true)
&&-both true b e = (refl, e)
&&-both false b e = cc

pub every-Memᴰ {ℓ} :
    {A : Type ℓ} (p : A → Bool) (xs : List A) {x : A} → every p xs ≡ true → Memᴰ x xs → p x ≡ true
every-Memᴰ p [] e m = absurd (Memᴰ.not-nil m)
every-Memᴰ p (y ∷ ys) {x} e m =
    let (first, rest) = &&-both (p y) (every p ys) e in
    elim (Memᴰ.cases_cons m) [ inl x≡y ↦ ap p x≡y ∙ first | inr m' ↦ every-Memᴰ p ys rest m' ]

pub has-Memᴰ : (xs : List ℕ) (x : ℕ) → has xs x ≡ true → Memᴰ x xs
has-Memᴰ [] x e = cc
has-Memᴰ (y ∷ ys) x e = elim (Bool-cases (x == y)) [
  | inl p ↦ Memᴰ.head (==→eq x y p)
  | inr p ↦ Memᴰ.tail (has-Memᴰ ys x (rw p at e))
]

pub Memᴰ-has : (xs : List ℕ) (x : ℕ) → Memᴰ x xs → has xs x ≡ true
Memᴰ-has [] x m = absurd (Memᴰ.not-nil m)
Memᴰ-has (y ∷ ys) x m = elim (Memᴰ.cases_cons m) [
  | inl e ↦ rw (eq→== x y e)
  | inr m' ↦ elim (Bool-cases (x == y)) [ inl p ↦ rw p | inr p ↦ rw p (Memᴰ-has ys x m') ]
]

pub is_block-eq : (o : Option ℕ) (b : ℕ) → is_block o b ≡ true → o ≡ some b
is_block-eq none b e = cc
is_block-eq (some d) b e = ap some (==→eq d b e)

-- No element stands twice.
abbrev pub IsDistinct : List ℕ → Type 0
IsDistinct [] = Unit
IsDistinct (x ∷ xs) = (has xs x ≡ false) × IsDistinct xs

has-set_of : (xs : List ℕ) (x : ℕ) → has (set_of xs) x ≡ has xs x
has-set_of [] x = refl
has-set_of (y ∷ ys) x = elim (Bool-cases (has (set_of ys) y)) [
  | inl old ↦ rw old (
      has-set_of ys x ∙ elim (Bool-cases (x == y)) [
        | inl e ↦ rw e (ap (has ys) (==→eq x y e) ∙ sym (has-set_of ys y) ∙ old)
        | inr ne ↦ rw ne
      ])
  | inr new ↦ rw new (ap (λ (r : Bool). x == y || r) (has-set_of ys x))
]

length-set_of : (xs : List ℕ) → length (set_of xs) ≤ length xs
length-set_of [] = omega arith
length-set_of (x ∷ xs) = elim (Bool-cases (has (set_of xs) x)) [
  | inl old ↦ rw old (omega (arith, length-set_of xs))
  | inr new ↦ rw new (omega (arith, length-set_of xs))
]

-- A set made of a list is as large only if nothing stands twice.
pub is_unique-IsDistinct : (xs : List ℕ) → is_unique xs ≡ true → IsDistinct xs
is_unique-IsDistinct [] e = tt
is_unique-IsDistinct (x ∷ xs) e = elim (Bool-cases (has (set_of xs) x)) [
  | inl old ↦
      let same : length (set_of xs) ≡ suc (length xs) = ==→eq _ _ (rw old at e) in
      absurd (omega (arith, same, length-set_of xs))
  | inr new ↦
      let same : suc (length (set_of xs)) ≡ suc (length xs) = ==→eq _ _ (rw new at e) in
      (sym (has-set_of xs x) ∙ new, is_unique-IsDistinct xs (eq→== _ _ (omega (arith, same))))
]

module _ (m : Module) where
  pub every_block-Memᴰ :
      (p : ℕ → ℕ → Bool)
      → every (λ f. every (p f) (m.basic_blocks f)) m.functions ≡ true
      → {f b : ℕ} → Memᴰ f m.functions
      → Memᴰ b (m.basic_blocks f)
      → p f b ≡ true
  every_block-Memᴰ p e {f} {b} mf mb =
      every-Memᴰ (p f) (m.basic_blocks f)
        (every-Memᴰ (λ f. every (p f) (m.basic_blocks f)) m.functions e mf) mb
