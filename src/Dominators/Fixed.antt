-- ===== src/Dominators/Fixed.antt =====
-- Dominators::generate_idom: where the iteration ends, the immediate dominators are a tree that
-- joins the blocks behind each block.
use mathlib.Core.List.{Memᴰ}
use mathlib.Core.List.Memᴰ
use native.Mathlib.Decide.{ℕ_discrete}
use poly_cminus.Prelude.{
  ℕ, zero, suc, ◌==◌, ◌&&◌, ltb, true, false, not, Bool-cases, if◌then◌else◌, Option, none, some,
  >>=-eq-some, List, [], ◌∷◌, ◌≡◌, ◌≢◌, refl, sym, ap, ◌∙◌, inl, inr, subst, ==→eq, eq→==, ne→==,
}
use poly_cminus.Uses.{put}
use poly_cminus.Dominators.Iteration.{
  Idom, is_set, is_block, intersect, first_set, intersect_each, new_idom_of, Pass, update, process,
  process_each, iterate, generate_idom,
}
use poly_cminus.Dominators.Walks.{Walk, Above, here, up, Above-trans, IsTree}

module _ (index : ℕ → ℕ) where
  -- What `intersect` returns is above both.
  pub intersect-Above :
      (fuel : ℕ) (idom : Idom) (b1 b2 : ℕ) {r : ℕ}
      → intersect index fuel idom b1 b2 ≡ some r
      → Above idom r b1 × Above idom r b2
  unfolding intersect
  intersect-Above zero idom b1 b2 e = cc
  intersect-Above (suc fuel) idom b1 b2 {r} e = elim (Bool-cases (b1 == b2)) [
    | inl same ↦
        let found : some b1 ≡ some r = rw same at e in
        let b1≡r : b1 ≡ r = cc in (here b1≡r, here (sym (==→eq b1 b2 same) ∙ b1≡r))
    | inr differ ↦ elim (Bool-cases (ltb (index b1) (index b2))) [
      | inl lower ↦
          let (c, p, q) = >>=-eq-some (idom b1) _ (rw (differ, lower) at e) in
          let ih = intersect-Above fuel idom c b2 q in (up p ih.0, ih.1)
      | inr higher ↦
          let (c, p, q) = >>=-eq-some (idom b2) _ (rw (differ, higher) at e) in
          let ih = intersect-Above fuel idom b1 c q in (ih.0, up p ih.1)
    ]
  ]

  intersect_one-Above :
      (fuel : ℕ) (idom : Idom) (pre_block q d : ℕ) {d' : ℕ}
      → (if is_set (idom q) && not (q == pre_block) then intersect index fuel idom d q else some d)
        ≡ some d'
      → Above idom d' d × (is_set (idom q) ≡ true → q ≢ pre_block → Above idom d' q)
  intersect_one-Above fuel idom pre_block q d {d'} e =
      elim (Bool-cases (is_set (idom q) && not (q == pre_block))) [
        | inl merged ↦
            let both = intersect-Above fuel idom d q (rw merged at e) in (both.0, λ _ _. both.1)
        | inr kept ↦
            let same : some d ≡ some d' = rw kept at e in
            (here (cc same), λ set ne. absurd (skipped set ne kept))
      ]
    where
      skipped :
          is_set (idom q) ≡ true
          → q ≢ pre_block
          → (is_set (idom q) && not (q == pre_block)) ≡ false
          → ⊥
      skipped set ne f = cc (rw (set, ne→== q pre_block ne) at f)

  intersect_each-Above :
      (fuel : ℕ) (idom : Idom) (pre_block : ℕ) (ps : List ℕ) (d : ℕ) {r : ℕ}
      → intersect_each index fuel idom pre_block ps d ≡ some r
      → Above idom r d
        × ((p : ℕ) → Memᴰ p ps → is_set (idom p) ≡ true → p ≢ pre_block → Above idom r p)
  intersect_each-Above fuel idom pre_block [] d {r} e =
      (here (cc e), λ p m. absurd (Memᴰ.not-nil m))
  intersect_each-Above fuel idom pre_block (q ∷ ps) d {r} e =
      let (d', first, rest) =
        >>=-eq-some
          (if is_set (idom q) && not (q == pre_block)
            then intersect index fuel idom d q
            else some d)
          _ e in
      let (above, others) = intersect_each-Above fuel idom pre_block ps d' rest in
      let (one, at_q) = intersect_one-Above fuel idom pre_block q d first in
      (
        Above-trans one above,
        λ p m set ne. elim (Memᴰ.cases_cons m) [
          | inl p≡q ↦ subst (Above idom r) (sym p≡q) (
              Above-trans (at_q (ap (λ x. is_set (idom x)) (sym p≡q) ∙ set) (λ e. ne (p≡q ∙ e)))
                above)
          | inr m' ↦ others p m' set ne
        ],
      )

  -- The new dominator is above every block behind that has one.
  pub new_idom_of-Above :
      (fuel : ℕ) (idom : Idom) (ps : List ℕ) {r : ℕ}
      → new_idom_of index fuel idom ps ≡ some r
      → (p : ℕ) → Memᴰ p ps
      → is_set (idom p) ≡ true
      → Above idom r p
  new_idom_of-Above fuel idom ps {r} e p m set =
      let (pre_block, _, merged) = >>=-eq-some (first_set idom ps) _ e in
      let (above, others) = intersect_each-Above fuel idom pre_block ps pre_block merged in
      elim (ℕ_discrete p pre_block) [
        | yes same ↦ subst (Above idom r) (sym same) above
        | no ne ↦ others p m set ne
      ]

  module _ (behind : ℕ → List ℕ) (climb root : ℕ) where
    -- Where the iteration ends, no block of the order has a new dominator.
    pub record IsFixed (order : List ℕ) (idom : Idom) : Type 0 where
      pub at_root : idom root ≡ some root
      pub stays :
          (b : ℕ)
          → Memᴰ b order
          → b ≢ root
          → (c : ℕ) × (idom b ≡ some c) × (new_idom_of index climb idom (behind b) ≡ some c)

    -- A pass that has changed nothing.
    Unchanged : ℕ → Pass → Pass → Type 0
    Unchanged b s s' =
        (s'.idom root ≡ some root)
        × (s'.changed ≡ false
            → (s' ≡ s)
              × (b ≢ root
                  → (c : ℕ) × (s.idom b ≡ some c)
                    × (new_idom_of index climb s.idom (behind b) ≡ some c)))

    is_block-eq : (o : Option ℕ) (c : ℕ) → is_block o c ≡ true → o ≡ some c
    is_block-eq none c e = cc
    is_block-eq (some d) c e = ap some (==→eq d c e)

    updated :
        (b c : ℕ) (s : Pass)
        → s.idom root ≡ some root
        → b ≢ root
        → ((update b c s).idom root ≡ some root)
          × ((update b c s).changed ≡ false → (update b c s ≡ s) × (s.idom b ≡ some c))
    updated b c s r ne = elim (Bool-cases (is_block (s.idom b) c)) [
      | inl old ↦ rw old (r, λ _. (refl, is_block-eq (s.idom b) c old))
      | inr new ↦ rw (new, ne→== root b (λ e. ne (sym e))) (r, λ f. cc)
    ]

    process-Unchanged :
        (b : ℕ) (s s' : Pass)
        → s.idom root ≡ some root
        → process index behind climb root b s ≡ some s'
        → Unchanged b s s'
    unfolding Unchanged
    process-Unchanged b s s' r e = elim (Bool-cases (b == root)) [
      | inl at_root ↦
          let same : some s ≡ some s' = rw at_root at e in
          let s'≡s : s' ≡ s = cc in
          (rw s'≡s r, λ _. (s'≡s, λ ne. absurd (ne (==→eq b root at_root))))
      | inr elsewhere ↦
          let (c, computed, done) =
            >>=-eq-some (new_idom_of index climb s.idom (behind b)) _ (rw elsewhere at e) in
          let same : some (update b c s) ≡ some s' = done in
          let s'≡ : s' ≡ update b c s = cc in
          let d = updated b c s r (λ e. cc (eq→== b root e, elsewhere)) in
          (
            rw s'≡ d.0,
            λ f.
                let (kept, own) = d.1 (ap (λ t. t.changed) (sym s'≡) ∙ f) in
                (s'≡ ∙ kept, λ ne. (c, own, computed)),
          )
    ]

    process_each-Unchanged :
        (bs : List ℕ) (s s' : Pass)
        → s.idom root ≡ some root
        → process_each index behind climb root bs s ≡ some s'
        → (s'.idom root ≡ some root)
          × (s'.changed ≡ false
              → (s' ≡ s)
                × ((b : ℕ)
                    → Memᴰ b bs
                    → b ≢ root
                    → (c : ℕ) × (s.idom b ≡ some c)
                      × (new_idom_of index climb s.idom (behind b) ≡ some c)))
    unfolding Unchanged
    process_each-Unchanged [] s s' r e =
        let s'≡s : s' ≡ s = cc in (rw s'≡s r, λ _. (s'≡s, λ b m. absurd (Memᴰ.not-nil m)))
    process_each-Unchanged (b ∷ bs) s s' r e =
        let (t, first, rest) = >>=-eq-some (process index behind climb root b s) _ e in
        let (root_kept, at_b) = process-Unchanged b s t r first in
        let (root_kept', at_bs) = process_each-Unchanged bs t s' root_kept rest in
        (
          root_kept',
          λ f.
              let (s'≡t, later) = at_bs f in
              let (t≡s, own) = at_b (ap (λ u. u.changed) (sym s'≡t) ∙ f) in
              (
                s'≡t ∙ t≡s,
                λ x m ne. elim (Memᴰ.cases_cons m) [
                  | inl x≡b ↦
                      let (c, p, q) = own (λ e. ne (x≡b ∙ e)) in
                      (
                        c,
                        ap s.idom x≡b ∙ p,
                        ap (λ y. new_idom_of index climb s.idom (behind y)) x≡b ∙ q,
                      )
                  | inr m' ↦
                      let (c, p, q) = later x m' ne in
                      (
                        c,
                        ap (λ u. u.idom x) (sym t≡s) ∙ p,
                        ap (λ u. new_idom_of index climb u.idom (behind x)) (sym t≡s) ∙ q,
                      )
                ],
              ),
        )

    iterate-IsFixed :
        (rounds : ℕ) (order : List ℕ) (idom : Idom) {idom' : Idom}
        → idom root ≡ some root
        → iterate index behind climb rounds root order idom ≡ some idom'
        → IsFixed order idom'
    unfolding iterate
    iterate-IsFixed zero order idom r e = cc
    iterate-IsFixed (suc rounds) order idom {idom'} r e =
        let before : Pass = record { idom = idom; changed = false } in
        let (s, passed, again) =
          >>=-eq-some (process_each index behind climb root order before) _ e in
        let (root_kept, at_end) = process_each-Unchanged order before s r passed in
        elim (Bool-cases s.changed) [
          | inl c ↦ iterate-IsFixed rounds order s.idom root_kept (rw c at again)
          | inr c ↦
              let ends : some s.idom ≡ some idom' = rw c at again in
              let same : idom' ≡ idom = (cc) ∙ ap (λ u. u.idom) (at_end c).0 in
              subst (IsFixed order) (sym same) (record { at_root = r; stays = (at_end c).1 })
        ]

    -- The tree, where the order has every block that is reached.
    pub IsFixed-IsTree :
        {order : List ℕ} {idom : Idom}
        → IsFixed order idom
        → ((b : ℕ) → Walk behind root b → b ≢ root → Memᴰ b order)
        → IsTree behind root idom
    IsFixed-IsTree {order} {idom} h covers = record {
      at_root = h.at_root;
      joins = λ {a} {b} w m ne.
          let (c, p, q) = h.stays b (covers b (Walk.step w m) ne) ne in
          (c, p, new_idom_of-Above climb idom (behind b) q a m (set a w));
    }
      where
        set : (a : ℕ) → Walk behind root a → is_set (idom a) ≡ true
        set a w = elim (ℕ_discrete a root) [
          | yes e ↦ ap (λ x. is_set (idom x)) e ∙ ap is_set h.at_root
          | no ne ↦ ap is_set (h.stays a (covers a w ne) ne).1
        ]

    pub generate_idom-IsFixed :
        (rounds : ℕ) (order : List ℕ) {idom : Idom}
        → generate_idom index behind climb rounds root order ≡ some idom
        → IsFixed order idom
    generate_idom-IsFixed rounds order e =
        iterate-IsFixed rounds order (put (λ b. none) root (some root)) (rw (eq→== root root refl))
          e
