-- ===== src/Dominators/Visits/Returns.antt =====
-- The depth-first search of src/Optimize/Dominators.cc returns, and reaches all that there is a
-- way to.
use mathlib.Core.List.{Memᴰ}
use poly_cminus.Prelude.{
  ℕ, zero, suc, ◌≤◌, length, Bool, true, false, Bool-cases, Option, some, List, [], ◌∷◌, ◌≡◌, refl,
  ap, inl, inr, arith,
}
use poly_cminus.Dominators.Search.{
  Visit, mark_visited, number, visit_each, visit_block, unvisited, reversed,
}
use poly_cminus.Dominators.Visits.{visit_block-closed}
use poly_cminus.Worklist.Left.{left, left_mono, left-put, put-true}

module _ (ahead : ℕ → List ℕ) (blocks : List ℕ)
    (closed : (b x : ℕ) → Memᴰ b blocks → Memᴰ x (ahead b) → Memᴰ x blocks) where
  visit_each-returns :
      (go : ℕ → Visit → Option Visit) (n : ℕ)
      → ((b : ℕ) (s : Visit)
          → Memᴰ b blocks
          → s.visited b ≡ false
          → left blocks s.visited ≤ n
          → (s' : Visit) × (go b s ≡ some s')
            × ((x : ℕ) → s.visited x ≡ true → s'.visited x ≡ true))
      → (bs : List ℕ) (s : Visit) → ((x : ℕ) → Memᴰ x bs → Memᴰ x blocks)
      → left blocks s.visited ≤ n
      → (s' : Visit) × (visit_each go bs s ≡ some s')
        × ((x : ℕ) → s.visited x ≡ true → s'.visited x ≡ true)
  visit_each-returns go n h [] s within enough = (s, refl, λ x e. e)
  visit_each-returns go n h (b ∷ bs) s within enough = elim (Bool-cases (s.visited b)) [
    | inl old ↦
        let (s', ran, kept) =
          visit_each-returns go n h bs s (λ x m. within x (Memᴰ.tail m)) enough in
        (s', rw old ran, kept)
    | inr new ↦
        let (t, first, kept) = h b s (within b (Memᴰ.head refl)) new enough in
        let (s', ran, kept') =
          visit_each-returns go n h bs t (λ x m. within x (Memᴰ.tail m))
            (omega (arith, left_mono blocks s.visited t.visited kept)) in
        (s', rw (new, first) ran, λ x e. kept' x (kept x e))
  ]

  -- On fuel above the number of blocks that are not visited the search returns.
  pub visit_block-returns :
      (fuel b : ℕ) (s : Visit)
      → Memᴰ b blocks
      → s.visited b ≡ false
      → left blocks s.visited ≤ fuel
      → (s' : Visit) × (visit_block ahead fuel b s ≡ some s')
        × ((x : ℕ) → s.visited x ≡ true → s'.visited x ≡ true)
  unfolding visit_block
  visit_block-returns zero b s m new enough =
      absurd (omega (arith, left-put blocks s.visited b m new))
  visit_block-returns (suc fuel) b s m new enough =
      let (t, ran, kept) =
        visit_each-returns (visit_block ahead fuel) fuel (visit_block-returns fuel) (ahead b)
          (mark_visited b s) (λ x n. closed b x m n)
          (omega (arith, left-put blocks s.visited b m new)) in
      (number b t, rw ran, λ x e. kept x (put-true s.visited b x e))

left-unvisited : (bs : List ℕ) → left bs (λ b. false) ≡ length bs
left-unvisited [] = refl
left-unvisited (b ∷ bs) = ap suc (left-unvisited bs)

-- The blocks that there is a way to.
pub data Reach (ahead : ℕ → List ℕ) (root : ℕ) : ℕ → Type 0 where
  here : Reach ahead root root
  next : {a b : ℕ} → Reach ahead root a → Memᴰ b (ahead a) → Reach ahead root b

pub Reach-visited :
    (ahead : ℕ → List ℕ) (root : ℕ) (visited : ℕ → Bool)
    → visited root ≡ true
    → ((x : ℕ) → visited x ≡ true → (y : ℕ) → Memᴰ y (ahead x) → visited y ≡ true)
    → {b : ℕ} → Reach ahead root b
    → visited b ≡ true
Reach-visited ahead root visited at_root closed here = at_root
Reach-visited ahead root visited at_root closed (next {a} {b} r m) =
    closed a (Reach-visited ahead root visited at_root closed r) b m

-- Where the blocks ahead of a block of the list are in the list, the search from one of them
-- returns on fuel that is not less than the number of blocks, and the order has every block that
-- there is a way to.
pub visit_block-Reach :
    (ahead : ℕ → List ℕ) (blocks : List ℕ) (fuel root : ℕ)
    → ((b x : ℕ) → Memᴰ b blocks → Memᴰ x (ahead b) → Memᴰ x blocks)
    → Memᴰ root blocks
    → length blocks ≤ fuel
    → (s : Visit) × (visit_block ahead fuel root unvisited ≡ some s)
      × ((b : ℕ) → Reach ahead root b → (s.visited b ≡ true) × Memᴰ b (reversed s.visit_order []))
visit_block-Reach ahead blocks fuel root closed m enough =
    let (s, ran, _) =
      visit_block-returns ahead blocks closed fuel root unvisited m refl
        (rw (left-unvisited blocks) enough) in
    let (at_root, all) = visit_block-closed ahead fuel root s ran in
    (
      s,
      ran,
      λ b r.
          let v = Reach-visited ahead root s.visited at_root (λ x u. (all x u).1) r in
          (v, (all b v).0),
    )
