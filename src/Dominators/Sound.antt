-- ===== src/Dominators/Sound.antt =====
-- The dominators that src/Optimize/Dominators.cc and include/Optimize/PostDominator.hh compute
-- against the walks of the graph.
use mathlib.Core.List.{Memᴰ}
use mathlib.Core.List.Memᴰ
use poly_cminus.Prelude.{
  ℕ, zero, suc, ◌==◌, length, Bool, true, false, Bool-cases, if◌then◌else◌, some, >>=-eq-some, List,
  [], ◌∷◌, ◌≡◌, ◌≢◌, sym, inl, inr, subst, ==→eq,
}
use poly_cminus.Uses.{put}
use poly_cminus.RemoveUselessBr.{Graph}
use poly_cminus.Dominators.Search.{
  Func, without, forget, remove_unreachable_basic_block, remove_each, Order, visit_function,
  visit_block, unvisited, reversed,
}
use poly_cminus.Dominators.Iteration.{Idom, generate_idom}
use poly_cminus.Dominators.Frontier.{
  generate_dom_frontier, generate_dom_tree_succ_blocks, is_dominator,
}
use poly_cminus.Dominators.Run.{
  Fuel, Dominance, analyse, get_entry_block, run_dominators, run_post_dominators,
}
use poly_cminus.Dominators.Visits.{visit_block-closed}
use poly_cminus.Dominators.Walks.{
  Walk, start, step, Dominates, Above, here, up, IsTree, Above-Dominates,
}
use poly_cminus.Dominators.Fixed.{generate_idom-IsFixed, IsFixed-IsTree}

without-subset : (xs : List ℕ) (b a : ℕ) → Memᴰ a (without xs b) → Memᴰ a xs
without-subset [] b a m = m
without-subset (x ∷ xs) b a m = elim (Bool-cases (x == b)) [
  | inl p ↦ Memᴰ.tail (
      without-subset xs b a
        (subst (λ t. Memᴰ a (if t then without xs b else x ∷ without xs b)) p m))
  | inr p ↦
      elim (Memᴰ.cases_cons
        (subst (λ t. Memᴰ a (if t then without xs b else x ∷ without xs b)) p m)) [
          | inl e ↦ Memᴰ.head e
          | inr m' ↦ Memᴰ.tail (without-subset xs b a m')
        ]
]

forget-subset :
    (b : ℕ) (xs : List ℕ) (lists : ℕ → List ℕ) (a y : ℕ)
    → Memᴰ a (forget b xs lists y)
    → Memᴰ a (lists y)
forget-subset b [] lists a y m = m
forget-subset b (x ∷ xs) lists a y m =
    shrunk (forget-subset b xs (put lists x (without (lists x) b)) a y m)
  where
    shrunk : Memᴰ a (put lists x (without (lists x) b) y) → Memᴰ a (lists y)
    shrunk m = elim (Bool-cases (y == x)) [
      | inl p ↦
          subst (λ z. Memᴰ a (lists z)) (sym (==→eq y x p))
            (without-subset (lists x) b a
              (subst (λ t. Memᴰ a (if t then without (lists x) b else lists y)) p m))
      | inr p ↦ subst (λ t. Memᴰ a (if t then without (lists x) b else lists y)) p m
    ]

-- A function with no other edges.
abbrev Fewer : Func → Func → Type 0
Fewer f' f =
    (a y : ℕ)
    → (Memᴰ a (f'.graph.pre y) → Memᴰ a (f.graph.pre y))
      × (Memᴰ a (f'.graph.succ y) → Memᴰ a (f.graph.succ y))

-- The removal of blocks only takes edges away.
remove_each-Fewer :
    (bs : List ℕ) (visited : ℕ → Bool) (f : Func) → Fewer (remove_each bs visited f) f
remove_each-Fewer [] visited f a y = (λ m. m, λ m. m)
remove_each-Fewer (b ∷ bs) visited f a y =
    let ih = remove_each-Fewer bs visited (one (visited b)) a y in
    let here = one-Fewer (visited b) in (λ m. here.0 (ih.0 m), λ m. here.1 (ih.1 m))
  where
    one : Bool → Func
    one v = if v then f else remove_unreachable_basic_block b f

    one-Fewer :
        (v : Bool)
        → (Memᴰ a ((one v).graph.pre y) → Memᴰ a (f.graph.pre y))
          × (Memᴰ a ((one v).graph.succ y) → Memᴰ a (f.graph.succ y))
    one-Fewer true = (λ m. m, λ m. m)
    one-Fewer false = (
      forget-subset b (f.graph.succ b) f.graph.pre a y,
      forget-subset b ((remove_unreachable_basic_block b f).graph.pre b) f.graph.succ a y,
    )

module _ (ahead behind : Graph → ℕ → List ℕ)
    (shrinks : (bs : List ℕ) (visited : ℕ → Bool) (f : Func) (a y : ℕ)
      → Memᴰ a (behind (remove_each bs visited f).graph y)
      → Memᴰ a (behind f.graph y)) where
  visit_function-covers :
      (fuel root : ℕ) (f : Func) (o : Order)
      → ((a b : ℕ) → Memᴰ a (behind f.graph b) → Memᴰ b (ahead f.graph a))
      → visit_function (ahead f.graph) fuel root f ≡ some o
      → (b : ℕ) → Walk (behind o.func.graph) root b
      → b ≢ root
      → Memᴰ b o.visit_order
  unfolding visit_function
  visit_function-covers fuel root f o agree e =
      let (s, ran, rest) = >>=-eq-some (visit_block (ahead f.graph) fuel root unvisited) _ e in
      let f' = remove_each f.blocks s.visited f in
      elim (Bool-cases (length s.visit_order == length f'.blocks)) [
        | inl p ↦
            let o' : Order = record {
              func = f';
              visit_index = s.visit_index;
              visit_order = reversed s.visit_order [];
            } in
            let same : some o' ≡ some o = rw p at rest in
            let o'≡o : o' ≡ o = cc in
            let closed = visit_block-closed (ahead f.graph) fuel root s ran in
            let visits =
              reach f' closed.0 (λ x v. (closed.1 x v).1)
                (λ a b m. agree a b (shrinks f.blocks s.visited f a b m)) in
            subst
              (λ (o : Order).
                (b : ℕ) → Walk (behind o.func.graph) root b → b ≢ root → Memᴰ b o.visit_order)
              o'≡o (λ b w ne. (closed.1 b (visits b w)).0)
        | inr p ↦ cc (rw p at rest)
      ]
    where
      reach :
          (f' : Func) {visited : ℕ → Bool}
          → visited root ≡ true
          → ((x : ℕ) → visited x ≡ true → (y : ℕ) → Memᴰ y (ahead f.graph x) → visited y ≡ true)
          → ((a b : ℕ) → Memᴰ a (behind f'.graph b) → Memᴰ b (ahead f.graph a))
          → (b : ℕ) → Walk (behind f'.graph) root b
          → visited b ≡ true
      reach f' at_root next agree b start = at_root
      reach f' at_root next agree b (step {a} w m) =
          next a (reach f' at_root next agree a w) b (agree a b m)

  analyse-IsTree :
      (fuel : Fuel) (root : ℕ) (f : Func) (d : Dominance)
      → ((a b : ℕ) → Memᴰ a (behind f.graph b) → Memᴰ b (ahead f.graph a))
      → analyse ahead behind fuel root f ≡ some d
      → IsTree (behind d.func.graph) root d.idom
  analyse-IsTree fuel root f d agree e =
      let (o, visits, rest) = >>=-eq-some (visit_function (ahead f.graph) fuel.depth root f) _ e in
      let behind' = behind o.func.graph in
      let (idom, iterated, rest') =
        >>=-eq-some (generate_idom o.visit_index behind' fuel.climb fuel.rounds root o.visit_order)
          _ rest in
      let (frontier, _, last) =
        >>=-eq-some (generate_dom_frontier behind' fuel.climb idom o.func.blocks (λ b. [])) _
          rest' in
      let tree =
        IsFixed-IsTree o.visit_index behind' fuel.climb root
          (generate_idom-IsFixed o.visit_index behind' fuel.climb root fuel.rounds o.visit_order
            iterated)
          (visit_function-covers fuel.depth root f o agree visits) in
      let d' : Dominance = record {
        func = o.func;
        idom = idom;
        dom_frontier = frontier;
        dom_tree_succ_blocks = generate_dom_tree_succ_blocks idom o.func.blocks (λ b. []);
      } in
      let d'≡d : d' ≡ d = cc last in
      subst (λ (d : Dominance). IsTree (behind d.func.graph) root d.idom) d'≡d tree

pub is_dominator-Above :
    (fuel : ℕ) (idom : Idom) (succ prev : ℕ)
    → is_dominator fuel idom succ prev ≡ some true
    → Above idom prev succ
unfolding is_dominator
is_dominator-Above zero idom succ prev e = cc
is_dominator-Above (suc fuel) idom succ prev e =
    let (c, parent, rest) = >>=-eq-some (idom succ) _ e in
    elim (Bool-cases (c == succ)) [
      | inl at_root ↦ cc (rw at_root at rest)
      | inr ne ↦ elim (Bool-cases (c == prev)) [
        | inl p ↦ up parent (here (==→eq c prev p))
        | inr p ↦ up parent (is_dominator-Above fuel idom c prev (rw (ne, p) at rest))
      ]
    ]

-- Predecessors name successors: what `AgreeEdges` of a function's edges is.
abbrev pub AgreeEdges : Graph → Type 0
AgreeEdges g =
    (a b : ℕ) → (Memᴰ a (g.pre b) → Memᴰ b (g.succ a)) × (Memᴰ b (g.succ a) → Memᴰ a (g.pre b))

-- Where the pass returns on a function whose predecessors and successors agree: each block that is
-- met by following the immediate dominators from a block is on every walk from the entry to that block,
-- and so is a block of which `is_dominator` says so.
pub run_dominators-Dominates :
    (fuel : Fuel) (f : Func) (root : ℕ) (d : Dominance)
    → AgreeEdges f.graph
    → get_entry_block f ≡ some root
    → run_dominators fuel f ≡ some d
    → (b p : ℕ)
    → (Above d.idom p b → Dominates d.func.graph.pre root p b)
      × ((n : ℕ) → is_dominator n d.idom b p ≡ some true → Dominates d.func.graph.pre root p b)
unfolding run_dominators
run_dominators-Dominates fuel f root d agree entry e b p =
    let tree =
      analyse-IsTree (λ g. g.succ) (λ g. g.pre) (λ bs v f a y. (remove_each-Fewer bs v f a y).0)
        fuel root f d (λ a b. (agree a b).0) (rw entry at e) in
    (Above-Dominates tree, λ n h. Above-Dominates tree (is_dominator-Above n d.idom b p h))

-- The same, where it returns, for the post-dominators and the walks against the edges from the exit.
pub run_post_dominators-Dominates :
    (fuel : Fuel) (f : Func) (term : ℕ) (d : Dominance)
    → AgreeEdges f.graph
    → run_post_dominators fuel term f ≡ some d
    → (b p : ℕ)
    → (Above d.idom p b → Dominates d.func.graph.succ term p b)
      × ((n : ℕ) → is_dominator n d.idom b p ≡ some true → Dominates d.func.graph.succ term p b)
unfolding run_post_dominators
run_post_dominators-Dominates fuel f term d agree e b p =
    let tree =
      analyse-IsTree (λ g. g.pre) (λ g. g.succ) (λ bs v f a y. (remove_each-Fewer bs v f a y).1)
        fuel term f d (λ a b. (agree b a).1) e in
    (Above-Dominates tree, λ n h. Above-Dominates tree (is_dominator-Above n d.idom b p h))
