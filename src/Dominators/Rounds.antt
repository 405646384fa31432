-- ===== src/Dominators/Rounds.antt =====
-- The rounds of generate_idom in src/Optimize/Dominators.cc: each returns, and gives every block a
-- dominator that is numbered higher.
use mathlib.Core.List.{Memᴰ}
use mathlib.Core.List.Memᴰ
use native.Mathlib.Decide.{ℕ_discrete}
use poly_cminus.Prelude.{
  ℕ, zero, suc, ◌<◌, true, false, Bool-cases, Option, none, some, List, [], ◌∷◌, ◌≡◌, refl, sym, ap,
  ◌∙◌, inl, inr, ◌⊎◌, subst, eq→==, ne→==, arith,
}
use poly_cminus.Uses.{put}
use poly_cminus.ParallelMov.Moves.{put-same, put-other}
use poly_cminus.Dominators.Iteration.{Idom, is_block, Pass, process, process_each, iterate}
use poly_cminus.Dominators.Climbs.{
  Descends, IsOrdered, Has, Climbs, IsEnough, new_idom_of-returns, put-Has, put-Climbs,
}

module _ (index : ℕ → ℕ) (behind : ℕ → List ℕ) (root : ℕ) where
  -- Every one of the rounds returns, and changes a dominator.
  abbrev pub KeepsChanging : List ℕ → ℕ → ℕ → Idom → Type 0
  KeepsChanging order fuel zero idom = Unit
  KeepsChanging order fuel (suc rounds) idom =
      (s : Pass) × (process_each index behind fuel root order
          (record { idom = idom; changed = false })
        ≡ some s)
      × (s.changed ≡ true)
      × KeepsChanging order fuel rounds s.idom

  module _ (order : List ℕ) (ordered : IsOrdered index behind root order) where
    -- A block of the order gets a dominator, or keeps the one it has.
    process-returns :
        (fuel b : ℕ) (s : Pass)
        → Climbs index behind root order s.idom
        → IsEnough index behind root order ordered fuel
        → Memᴰ b order
        → ((p : ℕ) → Memᴰ p order → index b < index p → Has index behind root s.idom p)
        → (s' : Pass) × (process index behind fuel root b s ≡ some s')
          × Climbs index behind root order s'.idom
          × Has index behind root s'.idom b
          × ((x : ℕ) → Has index behind root s.idom x → Has index behind root s'.idom x)
    process-returns fuel b s c enough m before = elim (ℕ_discrete b root) [
      | yes e ↦ (s, rw (eq→== b root e) refl, c, (root, ap s.idom e ∙ c.at_root), λ x h. h)
      | no ne ↦
          let (p, mp, n, higher) = ordered.parent b m ne in
          let (r, ran, h, l) =
            new_idom_of-returns index behind root order ordered fuel s.idom (behind b) c enough n
              (before p mp higher) in
          let rise : index b < index r = omega (arith, higher, l) in
          elim (Bool-cases (is_block (s.idom b) r)) [
            | inl same ↦ (
              s,
              rw (ne→== b root ne, ran, same) refl,
              c,
              is_block-Has (s.idom b) r same,
              λ x hx. hx,
            )
            | inr differs ↦ (
              record { idom = put s.idom b (some r); changed = true },
              rw (ne→== b root ne, ran, differs) refl,
              put-Climbs index behind root order ordered s.idom b r c m ne h rise,
              (r, put-same s.idom b b (some r) refl),
              λ x hx. put-Has index behind root order ordered s.idom b r x hx,
            )
          ]
    ]
      where
        is_block-Has : (o : Option ℕ) (r : ℕ) → is_block o r ≡ true → (u : ℕ) × (o ≡ some u)
        is_block-Has none r e = cc
        is_block-Has (some u) r e = (u, refl)

    -- The rest of a round, where the blocks that came before have dominators.
    process_each-returns :
        (fuel : ℕ) (bs : List ℕ) (s : Pass)
        → Climbs index behind root order s.idom
        → IsEnough index behind root order ordered fuel
        → Descends index behind root bs
        → ((x : ℕ) → Memᴰ x bs → Memᴰ x order)
        → ((x : ℕ) → Memᴰ x order → Memᴰ x bs ⊎ Has index behind root s.idom x)
        → (s' : Pass) × (process_each index behind fuel root bs s ≡ some s')
          × Climbs index behind root order s'.idom
          × ((x : ℕ) → Memᴰ x order → Has index behind root s'.idom x)
    process_each-returns fuel [] s c enough descends inside met = (
      s,
      refl,
      c,
      λ x m. elim (met x m) [ inl none_left ↦ absurd (Memᴰ.not-nil none_left) | inr h ↦ h ],
    )
    process_each-returns fuel (b ∷ bs) s c enough (lower, descends) inside met =
        let before : (p : ℕ) → Memᴰ p order → index b < index p → Has index behind root s.idom p =
          λ p m higher. elim (met p m) [
            | inl ahead ↦ elim (Memᴰ.cases_cons ahead) [
              | inl p≡b ↦
                  let same : index p ≡ index b = ap index p≡b in
                  absurd (omega (arith, same, higher))
              | inr later ↦ let low = lower p later in absurd (omega (arith, low, higher))
            ]
            | inr h ↦ h
          ] in
        let (t, first, ct, hb, kept) =
          process-returns fuel b s c enough (inside b (Memᴰ.head refl)) before in
        let (s', ran, c', all) =
          process_each-returns fuel bs t ct enough descends (λ x m. inside x (Memᴰ.tail m))
            (λ x m. elim (met x m) [
              | inl ahead ↦ elim (Memᴰ.cases_cons ahead) [
                | inl x≡b ↦ inr (subst (Has index behind root t.idom) (sym x≡b) hb)
                | inr later ↦ inl later
              ]
              | inr h ↦ inr (kept x h)
            ]) in
        (s', rw first ran, c', all)

    pub iterate-returns :
        (fuel rounds : ℕ) (idom : Idom)
        → Climbs index behind root order idom
        → IsEnough index behind root order ordered fuel
        → ((idom' : Idom) × (iterate index behind fuel rounds root order idom ≡ some idom')
            × Climbs index behind root order idom'
            × ((x : ℕ) → Memᴰ x order → Has index behind root idom' x))
          ⊎ KeepsChanging order fuel rounds idom
    unfolding iterate
    iterate-returns fuel zero idom c enough = inr tt
    iterate-returns fuel (suc rounds) idom c enough =
        let (s, ran, c', all) =
          process_each-returns fuel order (record { idom = idom; changed = false }) c enough
            ordered.descends (λ x m. m) (λ x m. inl m) in
        elim (Bool-cases s.changed) [
          | inl again ↦ elim (iterate-returns fuel rounds s.idom c' enough) [
            | inl (idom', ran', c'', rest) ↦ inl (idom', rw (ran, again) ran', c'', rest)
            | inr more ↦ inr (s, ran, again, more)
          ]
          | inr stays ↦ inl (s.idom, rw (ran, stays) refl, c', all)
        ]

    pub start-Climbs : Climbs index behind root order (put (λ b. none) root (some root))
    start-Climbs =
        let idom : Idom = put (λ b. none) root (some root) in
        let at_root : idom root ≡ some root = put-same (λ b. none) root root (some root) refl in
        let only : (b u : ℕ) → idom b ≡ some u → b ≡ root = λ b u e. elim (ℕ_discrete root b) [
          | yes same ↦ sym same
          | no ne ↦
              let nothing : none ≡ some u = sym (put-other (λ b. none) root b (some root) ne) ∙ e in
              cc nothing
        ] in
        record {
          at_root = at_root;
          within = λ b u e. subst (λ x. Memᴰ x order) (sym (only b u e)) ordered.root_within;
          has = λ b u e.
              let same : some root ≡ some u = sym at_root ∙ ap idom (sym (only b u e)) ∙ e in
              let root≡u : root ≡ u = cc same in (root, ap idom (sym root≡u) ∙ at_root);
          rises = λ b u e ne. absurd (ne (only b u e));
        }
