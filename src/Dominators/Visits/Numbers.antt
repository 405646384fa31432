-- ===== src/Dominators/Visits/Numbers.antt =====
-- The numbers that the search of src/Optimize/Dominators.cc gives: a block comes after those that
-- were visited from it.
use mathlib.Core.List.{Memᴰ, append-nil, append_assoc}
use mathlib.Core.List.Memᴰ
use poly_cminus.Prelude.{
  ℕ, ◌+◌, ◌<◌, ◌≤◌, length, length-append, Memᴰ-append, true, false, Bool-cases, List, [], ◌∷◌,
  ◌++◌, ◌≡◌, ◌≢◌, refl, sym, ap, ◌∙◌, inl, inr, eq→==, arith,
}
use poly_cminus.ParallelMov.Moves.{put-same, put-other}
use poly_cminus.Worklist.Left.{put-true}
use poly_cminus.Dominators.Search.{Visit, mark_visited, number}

abbrev pub Ascends : (ℕ → ℕ) → List ℕ → Type 0
Ascends index [] = Unit
Ascends index (b ∷ bs) = ((c : ℕ) → Memᴰ c bs → index b < index c) × Ascends index bs

Ascends-append :
    (index : ℕ → ℕ) (xs ys : List ℕ)
    → Ascends index xs
    → Ascends index ys
    → ((x y : ℕ) → Memᴰ x xs → Memᴰ y ys → index x < index y)
    → Ascends index (xs ++ ys)
Ascends-append index [] ys ax ay between = ay
Ascends-append index (x ∷ xs) ys (lower, ax) ay between = (
  λ c m. elim (Memᴰ-append xs m) [ inl n ↦ lower c n | inr n ↦ between x c (Memᴰ.head refl) n ],
  Ascends-append index xs ys ax ay (λ a b ma mb. between a b (Memᴰ.tail ma) mb),
)

Ascends-same :
    (index index' : ℕ → ℕ) (xs : List ℕ)
    → ((x : ℕ) → Memᴰ x xs → index' x ≡ index x)
    → Ascends index xs
    → Ascends index' xs
Ascends-same index index' [] same a = tt
Ascends-same index index' (x ∷ xs) same (lower, a) = (
  λ c m.
      let low = lower c m in
      let at_x = same x (Memᴰ.head refl) in
      let at_c = same c (Memᴰ.tail m) in omega (arith, low, at_x, at_c),
  Ascends-same index index' xs (λ y m. same y (Memᴰ.tail m)) a,
)

-- The blocks that a part of the search numbers, and their numbers.
pub record Numbered (s s' : Visit) (added : List ℕ) : Type 0 where
  pub queued : s'.visit_order ≡ s.visit_order ++ added
  pub fresh : (x : ℕ) → Memᴰ x added → s.visited x ≡ false
  pub seen : (x : ℕ) → Memᴰ x added → s'.visited x ≡ true
  pub kept : (x : ℕ) → s.visited x ≡ true → s'.visited x ≡ true
  pub index_kept : (x : ℕ) → s.visited x ≡ true → s'.visit_index x ≡ s.visit_index x
  pub low : (x : ℕ) → Memᴰ x added → length s.visit_order ≤ s'.visit_index x
  pub high : (x : ℕ) → Memᴰ x added → s'.visit_index x < length s'.visit_order
  pub ascends : Ascends s'.visit_index added

pub Numbered-refl : (s : Visit) → Numbered s s []
Numbered-refl s = record {
  queued = sym (append-nil s.visit_order);
  fresh = λ x m. absurd (Memᴰ.not-nil m);
  seen = λ x m. absurd (Memᴰ.not-nil m);
  kept = λ x e. e;
  index_kept = λ x e. refl;
  low = λ x m. absurd (Memᴰ.not-nil m);
  high = λ x m. absurd (Memᴰ.not-nil m);
  ascends = tt;
}

pub Numbered-trans :
    {s t u : Visit} {xs ys : List ℕ} → Numbered s t xs → Numbered t u ys → Numbered s u (xs ++ ys)
Numbered-trans {s} {t} {u} {xs} {ys} g h =
    let long_t : length t.visit_order ≡ length s.visit_order + length xs =
      ap length g.queued ∙ length-append s.visit_order xs in
    let long_u : length u.visit_order ≡ length t.visit_order + length ys =
      ap length h.queued ∙ length-append t.visit_order ys in
    let old : (x : ℕ) → Memᴰ x xs → u.visit_index x ≡ t.visit_index x =
      λ x m. h.index_kept x (g.seen x m) in
    record {
      queued = h.queued ∙ ap (λ o. o ++ ys) g.queued ∙ append_assoc s.visit_order xs ys;
      fresh = λ x m. elim (Memᴰ-append xs m) [
        | inl n ↦ g.fresh x n
        | inr n ↦ elim (Bool-cases (s.visited x)) [
          | inl e ↦ cc (g.kept x e, h.fresh x n)
          | inr e ↦ e
        ]
      ];
      seen = λ x m. elim (Memᴰ-append xs m) [ inl n ↦ h.kept x (g.seen x n) | inr n ↦ h.seen x n ];
      kept = λ x e. h.kept x (g.kept x e);
      index_kept = λ x e. h.index_kept x (g.kept x e) ∙ g.index_kept x e;
      low = λ x m. elim (Memᴰ-append xs m) [
        | inl n ↦ let l = g.low x n in let same = old x n in omega (arith, l, same)
        | inr n ↦ let l = h.low x n in omega (arith, l, long_t)
      ];
      high = λ x m. elim (Memᴰ-append xs m) [
        | inl n ↦ let l = g.high x n in let same = old x n in omega (arith, l, same, long_u)
        | inr n ↦ h.high x n
      ];
      ascends =
          Ascends-append u.visit_index xs ys
            (Ascends-same t.visit_index u.visit_index xs old g.ascends) h.ascends
            (λ x y mx my.
              let l = g.high x mx in
              let same = old x mx in let l' = h.low y my in omega (arith, l, same, l'));
    }

-- The block itself, after what was visited from it.
pub number-Numbered :
    (b : ℕ) (s t : Visit) (xs : List ℕ)
    → s.visited b ≡ false
    → Numbered (mark_visited b s) t xs
    → Numbered s (number b t) (xs ++ b ∷ [])
      × ((x : ℕ) → Memᴰ x xs → (number b t).visit_index x ≡ t.visit_index x)
      × ((x : ℕ) → Memᴰ x xs → (number b t).visit_index x < (number b t).visit_index b)
number-Numbered b s t xs new g =
    let n = number b t in
    let marked : (mark_visited b s).visited b ≡ true = rw (eq→== b b refl) refl in
    let other : (x : ℕ) → (mark_visited b s).visited x ≡ false → b ≢ x = λ x e same.
      let at : (mark_visited b s).visited x ≡ true =
        ap (mark_visited b s).visited (sym same) ∙ marked in
      cc (at, e) in
    let was : (x : ℕ) → (mark_visited b s).visited x ≡ false → s.visited x ≡ false =
      λ x e. sym (put-other s.visited b x true (other x e)) ∙ e in
    let old : (x : ℕ) → Memᴰ x xs → n.visit_index x ≡ t.visit_index x =
      λ x m. put-other t.visit_index b x (length t.visit_order) (other x (g.fresh x m)) in
    let at_b : n.visit_index b ≡ length t.visit_order =
      put-same t.visit_index b b (length t.visit_order) refl in
    let long : length n.visit_order ≡ length t.visit_order + 1 =
      length-append t.visit_order (b ∷ []) in
    let long_t : length t.visit_order ≡ length s.visit_order + length xs =
      ap length g.queued ∙ length-append s.visit_order xs in
    let is_b : (x : ℕ) → Memᴰ x (b ∷ []) → x ≡ b =
      λ x m. elim (Memᴰ.cases_cons m) [ inl e ↦ e | inr nothing ↦ absurd (Memᴰ.not-nil nothing) ] in
    let below : (x : ℕ) → Memᴰ x xs → n.visit_index x < n.visit_index b =
      λ x m. let l = g.high x m in let same = old x m in omega (arith, l, same, at_b) in
    (
      record {
        queued = ap (λ o. o ++ b ∷ []) g.queued ∙ append_assoc s.visit_order xs (b ∷ []);
        fresh = λ x m. elim (Memᴰ-append xs m) [
          | inl m' ↦ was x (g.fresh x m')
          | inr m' ↦ ap s.visited (is_b x m') ∙ new
        ];
        seen = λ x m. elim (Memᴰ-append xs m) [
          | inl m' ↦ g.seen x m'
          | inr m' ↦ ap t.visited (is_b x m') ∙ g.kept b marked
        ];
        kept = λ x e. g.kept x (put-true s.visited b x e);
        index_kept = λ x e.
            let ne : b ≢ x = λ same. cc (ap s.visited same, e, new) in
            put-other t.visit_index b x (length t.visit_order) ne
            ∙ g.index_kept x (put-true s.visited b x e);
        low = λ x m. elim (Memᴰ-append xs m) [
          | inl m' ↦ let l = g.low x m' in let same = old x m' in omega (arith, l, same)
          | inr m' ↦ let same = ap n.visit_index (is_b x m') in omega (arith, same, at_b, long_t)
        ];
        high = λ x m. elim (Memᴰ-append xs m) [
          | inl m' ↦ let l = below x m' in omega (arith, l, at_b, long)
          | inr m' ↦ let same = ap n.visit_index (is_b x m') in omega (arith, same, at_b, long)
        ];
        ascends =
            Ascends-append n.visit_index xs (b ∷ [])
              (Ascends-same t.visit_index n.visit_index xs old g.ascends)
              (λ c m. absurd (Memᴰ.not-nil m), tt)
              (λ x y mx my.
                let l = below x mx in
                let same = ap n.visit_index (is_b y my) in omega (arith, l, same));
      },
      old,
      below,
    )
