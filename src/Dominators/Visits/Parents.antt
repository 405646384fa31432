-- ===== src/Dominators/Visits/Parents.antt =====
-- Every block that the search of src/Optimize/Dominators.cc visits is ahead of one that is numbered
-- higher.
use mathlib.Core.List.{Memᴰ}
use mathlib.Core.List.Memᴰ
use native.Mathlib.Decide.{ℕ_discrete}
use poly_cminus.Prelude.{
  ℕ, zero, suc, ◌<◌, Memᴰ-append, false, Bool-cases, if◌then◌else◌, Option, some, >>=-eq-some, List,
  [], ◌∷◌, ◌++◌, ◌≡◌, ◌≢◌, refl, ap, inl, inr, ◌⊎◌, subst, arith,
}
use poly_cminus.Dominators.Search.{Visit, mark_visited, number, visit_each, visit_block, reversed}
use poly_cminus.Dominators.Visits.Numbers.{
  Ascends, Numbered, Numbered-refl, Numbered-trans, number-Numbered,
}
use poly_cminus.Dominators.Climbs.{Descends}

module _ (ahead : ℕ → List ℕ) where
  abbrev pub HasParent : (ℕ → ℕ) → List ℕ → ℕ → Type 0
  HasParent index xs y = (p : ℕ) × Memᴰ p xs × Memᴰ y (ahead p) × (index y < index p)

  HasParent-same :
      (index index' : ℕ → ℕ) (xs zs : List ℕ) {y : ℕ}
      → ((x : ℕ) → Memᴰ x xs → index' x ≡ index x)
      → ((x : ℕ) → Memᴰ x xs → Memᴰ x zs)
      → Memᴰ y xs
      → HasParent index xs y
      → HasParent index' zs y
  HasParent-same index index' xs zs {y} same within my (p, mp, n, l) =
      let at_p = same p mp in
      let at_y = same y my in (p, within p mp, n, omega (arith, l, at_p, at_y))

  -- What the search from a block leaves.
  pub record FromBlock (b : ℕ) (s s' : Visit) : Type 0 where
    pub added : List ℕ
    pub numbered : Numbered s s' added
    pub itself : Memᴰ b added
    pub highest : (y : ℕ) → Memᴰ y added → y ≢ b → s'.visit_index y < s'.visit_index b
    pub parents : (y : ℕ) → Memᴰ y added → y ≢ b → HasParent s'.visit_index added y

  record FromEach (bs : List ℕ) (s s' : Visit) : Type 0 where
    added : List ℕ
    numbered : Numbered s s' added
    parents : (y : ℕ) → Memᴰ y added → Memᴰ y bs ⊎ HasParent s'.visit_index added y

  FromEach-visited :
      (b : ℕ) (bs : List ℕ) (s s' : Visit) → FromEach bs s s' → FromEach (b ∷ bs) s s'
  FromEach-visited b bs s s' r = record {
    added = r.added;
    numbered = r.numbered;
    parents = λ y m. elim (r.parents y m) [ inl n ↦ inl (Memᴰ.tail n) | inr h ↦ inr h ];
  }

  FromEach-new :
      (b : ℕ) (bs : List ℕ) (s t s' : Visit)
      → FromBlock b s t
      → FromEach bs t s'
      → FromEach (b ∷ bs) s s'
  FromEach-new b bs s t s' f r =
      let all = f.added ++ r.added in
      let old : (x : ℕ) → Memᴰ x f.added → s'.visit_index x ≡ t.visit_index x =
        λ x m. r.numbered.index_kept x (f.numbered.seen x m) in
      record {
        added = all;
        numbered = Numbered-trans f.numbered r.numbered;
        parents = λ y m. elim (Memᴰ-append f.added m) [
          | inl n ↦ elim (ℕ_discrete y b) [
            | yes e ↦ inl (Memᴰ.head e)
            | no ne ↦ inr (
                HasParent-same t.visit_index s'.visit_index f.added all old
                  (λ x mx. Memᴰ.append_left r.added mx) n (f.parents y n ne))
          ]
          | inr n ↦ elim (r.parents y n) [
            | inl later ↦ inl (Memᴰ.tail later)
            | inr h ↦ inr (
                HasParent-same s'.visit_index s'.visit_index r.added all (λ x mx. refl)
                  (λ x mx. Memᴰ.append_right f.added mx) n h)
          ]
        ];
      }

  visit_each-FromEach :
      (go : ℕ → Visit → Option Visit)
      → ((b : ℕ) (s s' : Visit) → s.visited b ≡ false → go b s ≡ some s' → FromBlock b s s')
      → (bs : List ℕ) (s s' : Visit) → visit_each go bs s ≡ some s'
      → FromEach bs s s'
  visit_each-FromEach go h [] s s' e =
      let s≡s' : s ≡ s' = cc e in
      subst (FromEach [] s) s≡s' (record {
        added = [];
        numbered = Numbered-refl s;
        parents = λ y m. absurd (Memᴰ.not-nil m);
      })
  visit_each-FromEach go h (b ∷ bs) s s' e =
      let (t, first, rest) = >>=-eq-some (if s.visited b then some s else go b s) _ e in
      let r = visit_each-FromEach go h bs t s' rest in
      elim (Bool-cases (s.visited b)) [
        | inl old ↦
            let same : some s ≡ some t = rw old at first in
            let t≡s : t ≡ s = cc same in
            FromEach-visited b bs s s' (subst (λ u. FromEach bs u s') t≡s r)
        | inr new ↦ FromEach-new b bs s t s' (h b s t new (rw new at first)) r
      ]

  pub visit_block-FromBlock :
      (fuel b : ℕ) (s s' : Visit)
      → s.visited b ≡ false
      → visit_block ahead fuel b s ≡ some s'
      → FromBlock b s s'
  unfolding visit_block
  visit_block-FromBlock zero b s s' new e = cc
  visit_block-FromBlock (suc fuel) b s s' new e =
      let s1 = mark_visited b s in
      let (t, each, last) = >>=-eq-some (visit_each (visit_block ahead fuel) (ahead b) s1) _ e in
      let r =
        visit_each-FromEach (visit_block ahead fuel) (visit_block-FromBlock fuel) (ahead b) s1 t
          each in
      let (numbered, old, below) = number-Numbered b s t r.added new r.numbered in
      let all = r.added ++ b ∷ [] in
      let at_end : Memᴰ b all = Memᴰ.append_right r.added (Memᴰ.head refl) in
      let others : (y : ℕ) → Memᴰ y all → y ≢ b → Memᴰ y r.added = λ y m ne.
        elim (Memᴰ-append r.added m) [
          | inl n ↦ n
          | inr n ↦ elim (Memᴰ.cases_cons n) [
            | inl e' ↦ absurd (ne e')
            | inr nothing ↦ absurd (Memᴰ.not-nil nothing)
          ]
        ] in
      let n = number b t in
      let n≡s' : n ≡ s' = cc last in
      subst (FromBlock b s) n≡s' (record {
        added = all;
        numbered = numbered;
        itself = at_end;
        highest = λ y m ne. below y (others y m ne);
        parents = λ y m ne. elim (r.parents y (others y m ne)) [
          | inl child ↦ (b, at_end, child, below y (others y m ne))
          | inr h ↦
              HasParent-same t.visit_index n.visit_index r.added all old
                (λ x mx. Memᴰ.append_left (b ∷ []) mx) (others y m ne) h
        ];
      })

pub reversed-Descends :
    (index : ℕ → ℕ) (behind : ℕ → List ℕ) (root : ℕ) (xs acc : List ℕ)
    → Ascends index xs
    → Descends index behind root acc
    → ((x c : ℕ) → Memᴰ x xs → Memᴰ c acc → index c < index x)
    → Descends index behind root (reversed xs acc)
reversed-Descends index behind root [] acc a d between = d
reversed-Descends index behind root (x ∷ xs) acc (lower, a) d between =
    reversed-Descends index behind root xs (x ∷ acc) a (λ c m. between x c (Memᴰ.head refl) m, d)
      (λ y c my mc. elim (Memᴰ.cases_cons mc) [
        | inl e ↦ let same = ap index e in let l = lower y my in omega (arith, same, l)
        | inr m ↦ between y c (Memᴰ.tail my) m
      ])
