-- ===== src/Dominators/Run.antt =====
-- `run` of src/Optimize/Dominators.cc and of include/Optimize/PostDominator.hh, on one function.
use poly_cminus.Prelude.{ℕ, Option, none, some, ◌>>=◌, List, [], ◌∷◌}
use poly_cminus.RemoveUselessBr.{Graph}
use poly_cminus.Dominators.Search.{Func, Order, visit_function}
use poly_cminus.Dominators.Iteration.{Idom, generate_idom}
use poly_cminus.Dominators.Frontier.{generate_dom_frontier, generate_dom_tree_succ_blocks}

pub record Fuel : Type 0 where
  pub depth : ℕ
  pub climb : ℕ
  pub rounds : ℕ

pub record Dominance : Type 0 where
  pub func : Func
  pub idom : Idom
  pub dom_frontier : ℕ → List ℕ
  pub dom_tree_succ_blocks : ℕ → List ℕ

abbrev pub analyse :
    (Graph → ℕ → List ℕ) → (Graph → ℕ → List ℕ) → Fuel → ℕ → Func → Option Dominance
analyse ahead behind fuel root f = visit_function (ahead f.graph) fuel.depth root f >>= λ o.
    let behind' = behind o.func.graph in
    generate_idom o.visit_index behind' fuel.climb fuel.rounds root o.visit_order >>= λ idom.
    generate_dom_frontier behind' fuel.climb idom o.func.blocks (λ b. []) >>= λ frontier.
    some (record {
      func = o.func;
      idom = idom;
      dom_frontier = frontier;
      dom_tree_succ_blocks = generate_dom_tree_succ_blocks idom o.func.blocks (λ b. []);
    })

-- `get_entry_block`
abbrev pub get_entry_block : Func → Option ℕ
get_entry_block f = elim (f.blocks) [ [] ↦ none | b ∷ bs ↦ some b ]

-- `run`, on one function of two blocks or more.
unfoldable pub run_dominators : Fuel → Func → Option Dominance
run_dominators fuel f = get_entry_block f >>= λ root. analyse (λ g. g.succ) (λ g. g.pre) fuel root f

-- include/Optimize/PostDominator.hh has these functions with the edges the other way round.
abbrev pub post_visit_function : ℕ → ℕ → Func → Option Order
post_visit_function depth term f = visit_function f.graph.pre depth term f

abbrev pub post_generate_idom : (ℕ → ℕ) → Graph → ℕ → ℕ → ℕ → List ℕ → Option Idom
post_generate_idom visit_index g climb rounds term order =
    generate_idom visit_index g.succ climb rounds term order

abbrev pub post_generate_dom_frontier : Graph → ℕ → Idom → List ℕ → Option (ℕ → List ℕ)
post_generate_dom_frontier g climb idom bs = generate_dom_frontier g.succ climb idom bs (λ b. [])

abbrev pub post_generate_dom_tree_succ_blocks : Idom → List ℕ → ℕ → List ℕ
post_generate_dom_tree_succ_blocks idom bs = generate_dom_tree_succ_blocks idom bs (λ b. [])

unfoldable pub run_post_dominators : Fuel → ℕ → Func → Option Dominance
run_post_dominators fuel term f = post_visit_function fuel.depth term f >>= λ o.
    post_generate_idom o.visit_index o.func.graph fuel.climb fuel.rounds term o.visit_order
    >>= λ idom.
        post_generate_dom_frontier o.func.graph fuel.climb idom o.func.blocks >>= λ frontier.
        some (record {
          func = o.func;
          idom = idom;
          dom_frontier = frontier;
          dom_tree_succ_blocks = post_generate_dom_tree_succ_blocks idom o.func.blocks;
        })
