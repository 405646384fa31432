-- ===== src/Dominators/Climbs.antt =====
-- `intersect` of src/Optimize/Dominators.cc: where dominators are numbered higher than their blocks,
-- no climb goes on for ever, and the new dominator of a block is found.
use mathlib.Core.List.{Memᴰ}
use mathlib.Core.List.Memᴰ
use native.Mathlib.Decide.{ℕ_discrete}
use poly_cminus.Prelude.{
  ℕ, zero, suc, ◌+◌, ◌-◌, ◌<◌, ◌≤◌, ◌==◌, ◌&&◌, ltb, false, not, Bool-cases, if◌then◌else◌, some,
  Option-cases, List, [], ◌∷◌, ◌≡◌, ◌≢◌, refl, sym, ap, ◌∙◌, inl, inr, subst, ==→eq, eq→==, ne→==,
  ltb→lt, arith,
}
use poly_cminus.Uses.{put}
use poly_cminus.ParallelMov.Moves.{put-same, put-other}
use poly_cminus.Dominators.Iteration.{
  Idom, is_set, intersect, first_set, intersect_each, new_idom_of,
}

module _ (index : ℕ → ℕ) (behind : ℕ → List ℕ) (root : ℕ) where
  abbrev pub Descends : List ℕ → Type 0
  Descends [] = Unit
  Descends (b ∷ bs) = ((c : ℕ) → Memᴰ c bs → index c < index b) × Descends bs

  -- What the search gives: the blocks from the highest number down, the root first, and each other
  -- one behind one that is numbered higher.
  pub record IsOrdered (order : List ℕ) : Type 0 where
    pub root_within : Memᴰ root order
    pub root_first : (b : ℕ) → Memᴰ b order → b ≢ root → index b < index root
    pub parent :
        (b : ℕ)
        → Memᴰ b order
        → b ≢ root
        → (p : ℕ) × Memᴰ p order × Memᴰ p (behind b) × (index b < index p)
    pub descends : Descends order

  abbrev pub Has : Idom → ℕ → Type 0
  Has idom b = (u : ℕ) × (idom b ≡ some u)

  -- The dominators of blocks other than the root are numbered higher, and have one themselves.
  pub record Climbs (order : List ℕ) (idom : Idom) : Type 0 where
    pub at_root : idom root ≡ some root
    pub within : (b u : ℕ) → idom b ≡ some u → Memᴰ b order
    pub has : (b u : ℕ) → idom b ≡ some u → Has idom u
    pub rises : (b u : ℕ) → idom b ≡ some u → b ≢ root → index b < index u

  module _ (order : List ℕ) (ordered : IsOrdered order) where
    below_root : (b : ℕ) → Memᴰ b order → index b ≤ index root
    below_root b m = elim (ℕ_discrete b root) [
      | yes e ↦ let same : index b ≡ index root = ap index e in omega arith
      | no ne ↦ let low = ordered.root_first b m ne in omega (arith, low)
    ]

    intersect-returns :
        (fuel : ℕ) (idom : Idom) (b1 b2 : ℕ)
        → Climbs order idom
        → Has idom b1
        → Has idom b2
        → (index root - index b1) + (index root - index b2) < fuel
        → (r : ℕ) × (intersect index fuel idom b1 b2 ≡ some r)
          × Has idom r
          × (index b1 ≤ index r)
          × (index b2 ≤ index r)
    unfolding intersect
    intersect-returns zero idom b1 b2 c h1 h2 enough = absurd (omega (arith, enough))
    intersect-returns (suc fuel) idom b1 b2 c (u1, at1) (u2, at2) enough =
        let low1 = below_root b1 (c.within b1 u1 at1) in
        let low2 = below_root b2 (c.within b2 u2 at2) in
        elim (Bool-cases (b1 == b2)) [
          | inl same ↦
              let same_index : index b1 ≡ index b2 = ap index (==→eq b1 b2 same) in
              (b1, rw same refl, (u1, at1), omega arith, omega (arith, same_index))
          | inr differ ↦ elim (Bool-cases (ltb (index b1) (index b2))) [
            | inl lower ↦
                let less = ltb→lt (index b1) (index b2) lower in
                let not_root : b1 ≢ root = λ e.
                  let at : index b1 ≡ index root = ap index e in
                  absurd (omega (arith, at, less, low2)) in
                let rise = c.rises b1 u1 at1 not_root in
                let (u, at) = c.has b1 u1 at1 in
                let low = below_root u1 (c.within u1 u at) in
                let (r, ran, h, l1, l2) =
                  intersect-returns fuel idom u1 b2 c (u, at) (u2, at2)
                    (omega (arith, enough, rise, low)) in
                (r, rw (differ, lower, at1) ran, h, omega (arith, rise, l1), l2)
            | inr higher ↦
                let not_root : b2 ≢ root = λ e.
                  let at : index b2 ≡ index root = ap index e in
                  let is_root : b1 ≡ root = elim (ℕ_discrete b1 root) [
                    | yes same ↦ same
                    | no ne ↦
                        let low = ordered.root_first b1 (c.within b1 u1 at1) ne in
                        absurd (ltb-not higher (omega (arith, low, at)))
                  ] in
                  absurd (differs differ (is_root ∙ sym e)) in
                let rise = c.rises b2 u2 at2 not_root in
                let (u, at) = c.has b2 u2 at2 in
                let low = below_root u2 (c.within u2 u at) in
                let (r, ran, h, l1, l2) =
                  intersect-returns fuel idom b1 u2 c (u1, at1) (u, at)
                    (omega (arith, enough, rise, low)) in
                (r, rw (differ, higher, at2) ran, h, l1, omega (arith, rise, l2))
          ]
        ]
      where
        ltb-not : {x y : ℕ} → ltb x y ≡ false → ¬ (x < y)
        ltb-not {x} {y} e l = ground (arith, e, l)

        differs : {x y : ℕ} → (x == y) ≡ false → x ≢ y
        differs {x} {y} e same = cc (eq→== x y same, e)

    -- Enough fuel for every climb: twice the height of the root.
    abbrev pub IsEnough : ℕ → Type 0
    IsEnough fuel = index root + index root < fuel

    intersect_each-returns :
        (fuel : ℕ) (idom : Idom) (pre_block : ℕ) (ps : List ℕ) (d : ℕ)
        → Climbs order idom
        → IsEnough fuel
        → Has idom d
        → (r : ℕ) × (intersect_each index fuel idom pre_block ps d ≡ some r)
          × Has idom r
          × (index d ≤ index r)
          × ((p : ℕ) → Memᴰ p ps → Has idom p → p ≢ pre_block → index p ≤ index r)
    intersect_each-returns fuel idom pre_block [] d c enough h =
        (d, refl, h, omega arith, λ p m. absurd (Memᴰ.not-nil m))
    intersect_each-returns fuel idom pre_block (q ∷ ps) d c enough h =
        let (t, first, ht, l, at_q) = one in
        let (r, ran, hr, l', all) = intersect_each-returns fuel idom pre_block ps t c enough ht in
        (
          r,
          rw first ran,
          hr,
          omega (arith, l, l'),
          λ p m hp ne. elim (Memᴰ.cases_cons m) [
            | inl p≡q ↦
                let at_p : index p ≡ index q = ap index p≡q in
                let low = at_q (subst (Has idom) p≡q hp) (λ e. ne (p≡q ∙ e)) in
                omega (arith, at_p, low, l')
            | inr m' ↦ all p m' hp ne
          ],
        )
      where
        one :
            (t : ℕ) × ((if is_set (idom q) && not (q == pre_block)
                then intersect index fuel idom d q
                else some d)
              ≡ some t)
            × Has idom t
            × (index d ≤ index t)
            × (Has idom q → q ≢ pre_block → index q ≤ index t)
        one = elim (Option-cases (idom q)) [
          | inl nothing ↦ (d, rw nothing refl, h, omega arith, λ (u, at) ne. cc (nothing, at))
          | inr (u, at) ↦ elim (ℕ_discrete q pre_block) [
            | yes same ↦
                (d, rw (at, eq→== q pre_block same) refl, h, omega arith, λ hq ne. absurd (ne same))
            | no ne ↦
                let (t, ran, ht, l, l') =
                  intersect-returns fuel idom d q c h (u, at) (omega (arith, enough)) in
                (t, rw (at, ne→== q pre_block ne) ran, ht, l, λ hq other. l')
          ]
        ]

    first_set-returns :
        (idom : Idom) (ps : List ℕ) {p : ℕ}
        → Memᴰ p ps
        → Has idom p
        → (r : ℕ) × (first_set idom ps ≡ some r) × Has idom r
    first_set-returns idom [] m h = absurd (Memᴰ.not-nil m)
    first_set-returns idom (q ∷ ps) {p} m (u, at) = elim (Option-cases (idom q)) [
      | inl nothing ↦ elim (Memᴰ.cases_cons m) [
        | inl p≡q ↦ let there : idom q ≡ some u = ap idom (sym p≡q) ∙ at in cc (nothing, there)
        | inr m' ↦
            let (r, ran, hr) = first_set-returns idom ps m' (u, at) in (r, rw nothing ran, hr)
      ]
      | inr (v, at_q) ↦ (q, rw at_q refl, (v, at_q))
    ]

    -- Of a block with a dominated one behind it, the new dominator is found, and is numbered as
    -- high as every one that is.
    pub new_idom_of-returns :
        (fuel : ℕ) (idom : Idom) (ps : List ℕ) {p : ℕ}
        → Climbs order idom
        → IsEnough fuel
        → Memᴰ p ps
        → Has idom p
        → (r : ℕ) × (new_idom_of index fuel idom ps ≡ some r) × Has idom r × (index p ≤ index r)
    new_idom_of-returns fuel idom ps {p} c enough m h =
        let (f, first, hf) = first_set-returns idom ps m h in
        let (r, ran, hr, l, all) = intersect_each-returns fuel idom f ps f c enough hf in
        (
          r,
          rw first ran,
          hr,
          elim (ℕ_discrete p f) [
            | yes e ↦ let same : index p ≡ index f = ap index e in omega (arith, same, l)
            | no ne ↦ all p m h ne
          ],
        )

    pub put-Has : (idom : Idom) (b r x : ℕ) → Has idom x → Has (put idom b (some r)) x
    put-Has idom b r x (u, at) = elim (ℕ_discrete b x) [
      | yes e ↦ (r, put-same idom b x (some r) (sym e))
      | no ne ↦ (u, put-other idom b x (some r) ne ∙ at)
    ]

    pub put-Climbs :
        (idom : Idom) (b r : ℕ)
        → Climbs order idom
        → Memᴰ b order
        → b ≢ root
        → Has idom r
        → index b < index r
        → Climbs order (put idom b (some r))
    put-Climbs idom b r c m not_root h rise = record {
      at_root = put-other idom b root (some r) not_root ∙ c.at_root;
      within = λ x u e. elim (ℕ_discrete b x) [
        | yes same ↦ subst (λ x. Memᴰ x order) same m
        | no ne ↦ c.within x u (sym (put-other idom b x (some r) ne) ∙ e)
      ];
      has = λ x u e. elim (ℕ_discrete b x) [
        | yes same ↦
            let at : some r ≡ some u = sym (put-same idom b x (some r) (sym same)) ∙ e in
            let r≡u : r ≡ u = cc at in put-Has idom b r u (subst (Has idom) r≡u h)
        | no ne ↦ put-Has idom b r u (c.has x u (sym (put-other idom b x (some r) ne) ∙ e))
      ];
      rises = λ x u e other. elim (ℕ_discrete b x) [
        | yes same ↦
            let at : some r ≡ some u = sym (put-same idom b x (some r) (sym same)) ∙ e in
            let r≡u : r ≡ u = cc at in
            let at_x : index b ≡ index x = ap index same in
            let at_u : index r ≡ index u = ap index r≡u in omega (arith, rise, at_x, at_u)
        | no ne ↦ c.rises x u (sym (put-other idom b x (some r) ne) ∙ e) other
      ];
    }
