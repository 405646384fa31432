-- ===== src/Dominators/Visits.antt =====
-- What the depth-first search of src/Optimize/Dominators.cc visits and numbers.
pub mod Returns
pub mod Numbers
pub mod Parents
use mathlib.Core.List.{Memᴰ}
use mathlib.Core.List.Memᴰ
use native.Mathlib.Decide.{ℕ_discrete}
use poly_cminus.Prelude.{
  ℕ, zero, suc, ◌+◌, ◌≤◌, ◌<◌, ◌==◌, length, Bool, true, false, Bool-cases, if◌then◌else◌, Option,
  none, some, ◌>>=◌, >>=-eq-some, List, [], ◌∷◌, ◌++◌, ◌≡◌, ◌≢◌, refl, sym, ap, ◌∙◌, inl, inr, ◌⊎◌,
  subst, ==→eq, eq→==, ne→==, arith,
}
use poly_cminus.Worklist.Left.{put-true, put-true_inv}
use poly_cminus.Uses.{put}
use poly_cminus.Dominators.Search.{
  Visit, mark_visited, number, visit_each, visit_block, unvisited, reversed,
}

module _ (ahead : ℕ → List ℕ) where
  -- What a part of the search leaves: each block that it adds is numbered, and what is ahead of it
  -- visited.
  pub record Grown (s s' : Visit) : Type 0 where
    pub kept : (x : ℕ) → s.visited x ≡ true → s'.visited x ≡ true
    pub listed : (x : ℕ) → Memᴰ x s.visit_order → Memᴰ x s'.visit_order
    pub fresh :
        (x : ℕ)
        → s'.visited x ≡ true
        → (s.visited x ≡ true)
          ⊎ (Memᴰ x s'.visit_order × ((y : ℕ) → Memᴰ y (ahead x) → s'.visited y ≡ true))

  Grown-refl : (s : Visit) → Grown s s
  Grown-refl s = record { kept = λ x h. h; listed = λ x h. h; fresh = λ x h. inl h }

  Grown-trans : (s t u : Visit) → Grown s t → Grown t u → Grown s u
  Grown-trans s t u g h = record {
    kept = λ x e. h.kept x (g.kept x e);
    listed = λ x m. h.listed x (g.listed x m);
    fresh = λ x e. elim (h.fresh x e) [
      | inl old ↦ elim (g.fresh x old) [
        | inl older ↦ inl older
        | inr (m, all) ↦ inr (h.listed x m, λ y n. h.kept y (all y n))
      ]
      | inr new ↦ inr new
    ];
  }

  visit_each-Grown :
      (go : ℕ → Visit → Option Visit)
      → ((b : ℕ) (s s' : Visit) → go b s ≡ some s' → Grown s s' × (s'.visited b ≡ true))
      → (bs : List ℕ) (s s' : Visit) → visit_each go bs s ≡ some s'
      → Grown s s' × ((y : ℕ) → Memᴰ y bs → s'.visited y ≡ true)
  visit_each-Grown go h [] s s' e =
      let s'≡s : s' ≡ s = cc in
      (subst (Grown s) (sym s'≡s) (Grown-refl s), λ y m. absurd (Memᴰ.not-nil m))
  visit_each-Grown go h (b ∷ bs) s s' e =
      let (t, first, rest) = >>=-eq-some (if s.visited b then some s else go b s) _ e in
      let (g, at_b) = one t first in
      let (g', at_bs) = visit_each-Grown go h bs t s' rest in
      (
        Grown-trans s t s' g g',
        λ y m. elim (Memᴰ.cases_cons m) [
          | inl y≡b ↦ g'.kept y (ap t.visited y≡b ∙ at_b)
          | inr m' ↦ at_bs y m'
        ],
      )
    where
      one :
          (t : Visit)
          → (if s.visited b then some s else go b s) ≡ some t
          → Grown s t × (t.visited b ≡ true)
      one t e = elim (Bool-cases (s.visited b)) [
        | inl old ↦
            let same : some s ≡ some t = rw old at e in
            let t≡s : t ≡ s = cc in
            (subst (Grown s) (sym t≡s) (Grown-refl s), ap (λ u. u.visited b) t≡s ∙ old)
        | inr new ↦ h b s t (rw new at e)
      ]

  -- The search from a block visits it, and numbers all that it adds.
  pub visit_block-Grown :
      (fuel b : ℕ) (s s' : Visit)
      → visit_block ahead fuel b s ≡ some s'
      → Grown s s' × (s'.visited b ≡ true)
  unfolding visit_block
  visit_block-Grown zero b s s' e = cc
  visit_block-Grown (suc fuel) b s s' e =
      let s1 = mark_visited b s in
      let (t, each, last) = >>=-eq-some (visit_each (visit_block ahead fuel) (ahead b) s1) _ e in
      let (g, all) =
        visit_each-Grown (visit_block ahead fuel) (visit_block-Grown fuel) (ahead b) s1 t each in
      let s'≡ : s' ≡ number b t = cc in
      (
        subst (Grown s) (sym s'≡) (numbered t g all),
        ap (λ u. u.visited b) s'≡ ∙ g.kept b (rw (eq→== b b refl)),
      )
    where
      numbered :
          (t : Visit)
          → Grown (mark_visited b s) t
          → ((y : ℕ) → Memᴰ y (ahead b) → t.visited y ≡ true)
          → Grown s (number b t)
      numbered t g all = record {
        kept = λ x e. g.kept x (put-true s.visited b x e);
        listed = λ x m. Memᴰ.append_left (b ∷ []) (g.listed x m);
        fresh = λ x e. elim (g.fresh x e) [
          | inl early ↦ elim (put-true_inv s.visited b x early) [
            | inl x≡b ↦ inr (
              Memᴰ.append_right t.visit_order (Memᴰ.head x≡b),
              λ y m. all y (subst (λ z. Memᴰ y (ahead z)) x≡b m),
            )
            | inr old ↦ inl old
          ]
          | inr (m, ahead_visited) ↦ inr (Memᴰ.append_left (b ∷ []) m, ahead_visited)
        ];
      }

mem-reversed : (x : ℕ) (xs acc : List ℕ) → Memᴰ x xs ⊎ Memᴰ x acc → Memᴰ x (reversed xs acc)
mem-reversed x [] acc (inl m) = absurd (Memᴰ.not-nil m)
mem-reversed x [] acc (inr m) = m
mem-reversed x (y ∷ ys) acc (inl m) = elim (Memᴰ.cases_cons m) [
  | inl e ↦ mem-reversed x ys (y ∷ acc) (inr (Memᴰ.head e))
  | inr m' ↦ mem-reversed x ys (y ∷ acc) (inl m')
]
mem-reversed x (y ∷ ys) acc (inr m) = mem-reversed x ys (y ∷ acc) (inr (Memᴰ.tail m))

-- From an unvisited state the search reaches all that is ahead of what it reaches.
pub visit_block-closed :
    (ahead : ℕ → List ℕ) (fuel root : ℕ) (s' : Visit)
    → visit_block ahead fuel root unvisited ≡ some s'
    → (s'.visited root ≡ true)
      × ((x : ℕ)
          → s'.visited x ≡ true
          → Memᴰ x (reversed s'.visit_order [])
            × ((y : ℕ) → Memᴰ y (ahead x) → s'.visited y ≡ true))
visit_block-closed ahead fuel root s' e =
    let (g, at_root) = visit_block-Grown ahead fuel root unvisited s' e in
    (
      at_root,
      λ x v. elim (g.fresh x v) [
        | inl old ↦ cc old
        | inr (m, all) ↦ (mem-reversed x s'.visit_order [] (inl m), all)
      ],
    )
