-- ===== src/ParallelMov/Nodes.antt =====
-- The nodes of topo_sort as a list.
use mathlib.Core.List.{Memᴰ}
use mathlib.Core.List.Memᴰ
use poly_cminus.Prelude.{
  ℕ, suc, ◌≤◌, ◌<◌, ◌==◌, length, Bool, Bool-cases, List, [], ◌∷◌, ◌≡◌, ◌≢◌, refl, sym, ◌∙◌, ◌⊎◌,
  inl, inr, ==→eq, eq→==, arith,
}
use poly_cminus.Dominators.Search.{without}
use poly_cminus.ParallelMov.{insert_by}

pub without-Memᴰ : (xs : List ℕ) (n x : ℕ) → Memᴰ x (without xs n) → Memᴰ x xs × (x ≢ n)
without-Memᴰ [] n x m = absurd (Memᴰ.not-nil m)
without-Memᴰ (y ∷ xs) n x m = elim (Bool-cases (y == n)) [
  | inl p ↦ let (m', ne) = without-Memᴰ xs n x (rw p at m) in (Memᴰ.tail m', ne)
  | inr p ↦ elim (Memᴰ.cases_cons (rw p at m)) [
    | inl first ↦ (Memᴰ.head first, λ e. cc (eq→== y n (sym first ∙ e), p))
    | inr later ↦ let (m', ne) = without-Memᴰ xs n x later in (Memᴰ.tail m', ne)
  ]
]

pub Memᴰ-without : (xs : List ℕ) (n x : ℕ) → Memᴰ x xs → Memᴰ x (without xs n) ⊎ (x ≡ n)
Memᴰ-without [] n x m = absurd (Memᴰ.not-nil m)
Memᴰ-without (y ∷ xs) n x m = elim (Memᴰ.cases_cons m) [
  | inl first ↦ elim (Bool-cases (y == n)) [
    | inl p ↦ inr (first ∙ ==→eq y n p)
    | inr p ↦ inl (rw p (Memᴰ.head first))
  ]
  | inr later ↦ elim (Memᴰ-without xs n x later) [
    | inl stays ↦ elim (Bool-cases (y == n)) [
      | inl p ↦ inl (rw p stays)
      | inr p ↦ inl (rw p (Memᴰ.tail stays))
    ]
    | inr e ↦ inr e
  ]
]

pub length-without : (xs : List ℕ) (n : ℕ) → length (without xs n) ≤ length xs
length-without [] n = omega arith
length-without (y ∷ xs) n = elim (Bool-cases (y == n)) [
  | inl p ↦ rw p (omega (arith, length-without xs n))
  | inr p ↦ rw p (omega (arith, length-without xs n))
]

pub Memᴰ-fewer : (xs : List ℕ) (n : ℕ) → Memᴰ n xs → length (without xs n) < length xs
Memᴰ-fewer [] n m = absurd (Memᴰ.not-nil m)
Memᴰ-fewer (y ∷ xs) n m = elim (Bool-cases (y == n)) [
  | inl p ↦ rw p (omega (arith, length-without xs n))
  | inr p ↦ elim (Memᴰ.cases_cons m) [
    | inl first ↦ cc (eq→== y n (sym first), p)
    | inr later ↦ rw p (omega (arith, Memᴰ-fewer xs n later))
  ]
]

module _ (before : ℕ → ℕ → Bool) where
  pub insert_by-old : (x : ℕ) (ys : List ℕ) {y : ℕ} → Memᴰ y ys → Memᴰ y (insert_by before x ys)
  insert_by-old x [] m = absurd (Memᴰ.not-nil m)
  insert_by-old x (z ∷ zs) m = elim (Bool-cases (x == z)) [
    | inl p ↦ rw p m
    | inr p ↦ elim (Bool-cases (before x z)) [
      | inl q ↦ rw (p, q) (Memᴰ.tail m)
      | inr q ↦
          rw (p, q)
            (elim (Memᴰ.cases_cons m) [
              | inl first ↦ Memᴰ.head first
              | inr later ↦ Memᴰ.tail (insert_by-old x zs later)
            ])
    ]
  ]

  pub insert_by-new : (x : ℕ) (ys : List ℕ) → Memᴰ x (insert_by before x ys)
  insert_by-new x [] = Memᴰ.head refl
  insert_by-new x (z ∷ zs) = elim (Bool-cases (x == z)) [
    | inl p ↦ rw p (Memᴰ.head (==→eq x z p))
    | inr p ↦ elim (Bool-cases (before x z)) [
      | inl q ↦ rw (p, q) (Memᴰ.head refl)
      | inr q ↦ rw (p, q) (Memᴰ.tail (insert_by-new x zs))
    ]
  ]

  pub insert_by-length : (x : ℕ) (ys : List ℕ) → length (insert_by before x ys) ≤ suc (length ys)
  insert_by-length x [] = omega arith
  insert_by-length x (z ∷ zs) = elim (Bool-cases (x == z)) [
    | inl p ↦ rw p (omega arith)
    | inr p ↦ elim (Bool-cases (before x z)) [
      | inl q ↦ rw (p, q) (omega arith)
      | inr q ↦ rw (p, q) (omega (arith, insert_by-length x zs))
    ]
  ]
