-- ===== src/Dominators/Tests.antt =====
-- Dominators and post-dominators of a diamond with a loop behind it and a block that is not
-- reached.
use mathlib.Core.List.{Memᴰ}
use mathlib.Core.List.Memᴰ
use poly_cminus.Prelude.{
  ℕ, zero, suc, true, Option, none, some, ◌>>=◌, List, [], ◌∷◌, ◌≡◌, refl, arith,
}
use poly_cminus.Dominators.Search.{Func, Visit, visit_block, reversed, unvisited, visit_function}
use poly_cminus.Dominators.Run.{Fuel, Dominance, run_dominators, run_post_dominators}
use poly_cminus.Dominators.Frontier.{climb_frontier, generate_dom_frontier}
use poly_cminus.Dominators.Iteration.{intersect, iterate, generate_idom}
use poly_cminus.Dominators.Visits.Returns.{Reach, visit_block-Reach}

-- 0 goes to 1 and 2, which go to 3; 3 goes to itself and to 4. Nothing goes to 5.
abbrev succs : ℕ → List ℕ
succs zero = 1 ∷ 2 ∷ []
succs (suc zero) = 3 ∷ []
succs (suc (suc zero)) = 3 ∷ []
succs (suc (suc (suc zero))) = 3 ∷ 4 ∷ []
succs (suc (suc (suc (suc b)))) = []

abbrev preds : ℕ → List ℕ
preds zero = []
preds (suc zero) = 0 ∷ []
preds (suc (suc zero)) = 0 ∷ []
preds (suc (suc (suc zero))) = 1 ∷ 2 ∷ 3 ∷ []
preds (suc (suc (suc (suc zero)))) = 3 ∷ []
preds (suc (suc (suc (suc (suc b))))) = []

abbrev diamond : Func
diamond = record {
  blocks = 0 ∷ 1 ∷ 2 ∷ 3 ∷ 4 ∷ 5 ∷ [];
  graph = record { pre = preds; succ = succs };
}

abbrev fuel : Fuel
fuel = record { depth = 8; climb = 8; rounds = 4 }

abbrev or_else : Option Dominance → Dominance
or_else none = record {
  func = diamond;
  idom = λ b. none;
  dom_frontier = λ b. [];
  dom_tree_succ_blocks = λ b. [];
}
or_else (some d) = d

abbrev dominance : Dominance
dominance = or_else (run_dominators fuel diamond)

dominance_returns : run_dominators fuel diamond ≡ some dominance
unfolding run_dominators visit_function visit_block iterate intersect generate_dom_frontier
    climb_frontier
dominance_returns = refl

idom_join : dominance.idom 3 ≡ some 0
unfolding run_dominators visit_function visit_block iterate intersect generate_dom_frontier
    climb_frontier
idom_join = refl

frontier_branch : dominance.dom_frontier 1 ≡ 3 ∷ []
unfolding run_dominators visit_function visit_block iterate intersect generate_dom_frontier
    climb_frontier
frontier_branch = refl

blocks_left : dominance.func.blocks ≡ 0 ∷ 1 ∷ 2 ∷ 3 ∷ 4 ∷ []
unfolding run_dominators visit_function visit_block iterate intersect generate_dom_frontier
    climb_frontier
blocks_left = refl

abbrev post_dominance : Dominance
post_dominance = or_else (run_post_dominators fuel 4 diamond)

post_dominance_returns : run_post_dominators fuel 4 diamond ≡ some post_dominance
unfolding run_post_dominators visit_function visit_block iterate intersect generate_dom_frontier
    climb_frontier
post_dominance_returns = refl

-- One block that branches to itself.
visit_block-Reach_example :
    (s : Visit) × (visit_block (λ b. 0 ∷ []) 1 0 unvisited ≡ some s)
    × ((b : ℕ)
        → Reach (λ b. 0 ∷ []) 0 b
        → (s.visited b ≡ true) × Memᴰ b (reversed s.visit_order []))
visit_block-Reach_example =
    visit_block-Reach (λ b. 0 ∷ []) (0 ∷ []) 1 0 (λ b x m n. n) (Memᴰ.head refl) (omega arith)

abbrev searched : Visit
searched = elim (visit_block succs 8 0 unvisited) [ none ↦ unvisited | some s ↦ s ]

-- Two rounds are enough here, the second one without a change.
generate_idom_returns :
    (generate_idom searched.visit_index preds 10 2 0 (reversed searched.visit_order []) >>= λ idom.
    idom 3)
    ≡ some 0
unfolding visit_block iterate intersect
generate_idom_returns = refl
