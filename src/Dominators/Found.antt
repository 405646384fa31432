-- ===== src/Dominators/Found.antt =====
-- The search and generate_idom of src/Optimize/Dominators.cc together: what the iteration can do on
-- the order that the search gives.
use mathlib.Core.List.{Memᴰ}
use mathlib.Core.List.Memᴰ
use poly_cminus.Prelude.{ℕ, some, List, [], ◌≡◌}
use poly_cminus.Dominators.Search.{Visit, visit_block, unvisited, reversed}

module _ (ahead behind : ℕ → List ℕ)
    (agree : (a b : ℕ)
      → (Memᴰ a (behind b) → Memᴰ b (ahead a)) × (Memᴰ b (ahead a) → Memᴰ a (behind b)))
    (depth root : ℕ) (s : Visit) (ran : visit_block ahead depth root unvisited ≡ some s) where
  abbrev order : List ℕ
  order = reversed s.visit_order []
