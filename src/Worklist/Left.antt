-- ===== src/Worklist/Left.antt =====
-- Marks on numbers, and how many elements of a list are not marked.
use mathlib.Core.List.{Memᴰ}
use mathlib.Core.List.Memᴰ
use native.Mathlib.Decide.{ℕ_discrete}
use poly_cminus.Prelude.{
  ℕ, suc, ◌==◌, ◌≤◌, ◌<◌, length, Bool, true, false, Bool-cases, if◌then◌else◌, List, [], ◌∷◌, ◌≡◌,
  ◌≢◌, sym, ap, ◌∙◌, inl, inr, ◌⊎◌, ==→eq, eq→==, ne→==, arith,
}
use poly_cminus.Uses.{put}

pub put-true : (v : ℕ → Bool) (b x : ℕ) → v x ≡ true → put v b true x ≡ true
put-true v b x e = elim (Bool-cases (x == b)) [ inl p ↦ rw p | inr p ↦ rw p e ]

pub put-true_inv : (v : ℕ → Bool) (b x : ℕ) → put v b true x ≡ true → (x ≡ b) ⊎ (v x ≡ true)
put-true_inv v b x e = elim (Bool-cases (x == b)) [
  | inl p ↦ inl (==→eq x b p)
  | inr p ↦ inr (rw p at e)
]

-- The elements of a list that are not marked yet.
abbrev pub left : List ℕ → (ℕ → Bool) → ℕ
left [] visited = 0
left (b ∷ bs) visited = if visited b then left bs visited else suc (left bs visited)

pub left_mono :
    (bs : List ℕ) (v v' : ℕ → Bool) → ((x : ℕ) → v x ≡ true → v' x ≡ true) → left bs v' ≤ left bs v
left_mono [] v v' h = omega arith
left_mono (b ∷ bs) v v' h = elim (Bool-cases (v b)) [
  | inl p ↦ rw (p, h b p) (left_mono bs v v' h)
  | inr p ↦ elim (Bool-cases (v' b)) [
    | inl q ↦ rw (p, q) (omega (arith, left_mono bs v v' h))
    | inr q ↦ rw (p, q) (omega (arith, left_mono bs v v' h))
  ]
]

pub left-put :
    (bs : List ℕ) (v : ℕ → Bool) (b : ℕ)
    → Memᴰ b bs
    → v b ≡ false
    → left bs (put v b true) < left bs v
left-put [] v b m f = absurd (Memᴰ.not-nil m)
left-put (x ∷ xs) v b m f = elim (ℕ_discrete x b) [
  | yes e ↦
      let here : put v b true x ≡ true = rw (eq→== x b e) in
      rw (here, ap v e ∙ f) (omega (arith, left_mono xs v (put v b true) (put-true v b)))
  | no ne ↦
      let kept : put v b true x ≡ v x = rw (ne→== x b ne) in
      let ih = left-put xs v b (elsewhere (Memᴰ.cases_cons m) ne) f in
      elim (Bool-cases (v x)) [ inl p ↦ rw (kept, p) ih | inr p ↦ rw (kept, p) (omega (arith, ih)) ]
]
  where
    elsewhere : (b ≡ x) ⊎ Memᴰ b xs → x ≢ b → Memᴰ b xs
    elsewhere (inl e) ne = absurd (ne (sym e))
    elsewhere (inr m) ne = m

pub left-length : (bs : List ℕ) (v : ℕ → Bool) → left bs v ≤ length bs
left-length [] v = omega arith
left-length (b ∷ bs) v = elim (Bool-cases (v b)) [
  | inl p ↦ rw p (omega (arith, left-length bs v))
  | inr p ↦ rw p (omega (arith, left-length bs v))
]
