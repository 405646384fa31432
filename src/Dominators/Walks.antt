-- ===== src/Dominators/Walks.antt =====
-- Walks from the root, the chain of immediate dominators, and what a tree of them has to satisfy
-- for its chains to stand on every walk.
use mathlib.Core.List.{Memᴰ}
use poly_cminus.Prelude.{ℕ, some, ◌≡◌, ◌≢◌, refl, sym, ap, ◌∙◌, subst, ◌⊎◌, inl, inr, List}
use native.Mathlib.Decide.{ℕ_discrete}
use poly_cminus.Dominators.Iteration.{Idom}

-- The walks from `root`, where `behind b` are the blocks with an edge to `b`.
pub data Walk (behind : ℕ → List ℕ) (root : ℕ) : ℕ → Type 0 where
  start : Walk behind root root
  step : {a b : ℕ} → Walk behind root a → Memᴰ a (behind b) → Walk behind root b

-- The block is on the walk.
abbrev pub On : {behind : ℕ → List ℕ} {root : ℕ} → ℕ → (b : ℕ) → Walk behind root b → Type 0
On d b start = d ≡ b
On d b (step {a} w m) = (d ≡ b) ⊎ On d a w

-- No way from the root to `b` avoids `d`.
abbrev pub Dominates : (ℕ → List ℕ) → ℕ → ℕ → ℕ → Type 0
Dominates behind root d b = (w : Walk behind root b) → On d b w

-- `d` is `b`, or is met by following `idom` from `b`.
pub data Above (idom : Idom) (d : ℕ) : ℕ → Type 0 where
  here : {b : ℕ} → b ≡ d → Above idom d b
  up : {b c : ℕ} → idom b ≡ some c → Above idom d c → Above idom d b

pub Above-trans : {idom : Idom} {d e b : ℕ} → Above idom e b → Above idom d e → Above idom d b
Above-trans (here p) k = subst (Above _ _) (sym p) k
Above-trans (up e h) k = up e (Above-trans h k)

-- What the iteration leaves: the root is its own, and the parent of any other block that a walk
-- reaches is above each block behind it from which it is reached.
pub record IsTree (behind : ℕ → List ℕ) (root : ℕ) (idom : Idom) : Type 0 where
  pub at_root : idom root ≡ some root
  pub joins :
      {a b : ℕ}
      → Walk behind root a
      → Memᴰ a (behind b)
      → b ≢ root
      → (c : ℕ) × (idom b ≡ some c) × Above idom c a

module _ {behind : ℕ → List ℕ} {root : ℕ} {idom : Idom} (t : IsTree behind root idom) where
  Above-root : {d b : ℕ} → Above idom d b → b ≡ root → d ≡ root
  Above-root (here p) e = sym p ∙ e
  Above-root (up {b} {c} q h) e =
      let same : some c ≡ some root = sym q ∙ ap idom e ∙ t.at_root in Above-root h (cc same)

  -- Every block in the chain of `b` is on every walk to `b`.
  pub Above-Dominates : {d b : ℕ} → Above idom d b → Dominates behind root d b
  Above-Dominates h start = Above-root h refl
  Above-Dominates {d} {b} h (step {a} w m) = elim (ℕ_discrete b root) [
    | yes e ↦ inl (Above-root h e ∙ sym e)
    | no ne ↦ let (c, q, j) = t.joins w m ne in below h q (λ k. Above-Dominates (Above-trans j k) w)
  ]
    where
      below :
          {c : ℕ}
          → Above idom d b
          → idom b ≡ some c
          → (Above idom d c → On d a w)
          → (d ≡ b) ⊎ On d a w
      below (here p) q f = inl (sym p)
      below (up e h) q f = inr (f (subst (Above idom d) (cc) h))
