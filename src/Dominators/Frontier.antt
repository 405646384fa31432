-- ===== src/Dominators/Frontier.antt =====
-- `generate_dom_frontier`, `generate_dom_tree_succ_blocks` and `is_dominator` of
-- src/Optimize/Dominators.cc.
use poly_cminus.Prelude.{
  ℕ, zero, suc, ◌==◌, leb, length, Bool, true, false, if◌then◌else◌, Option, none, some, ◌>>=◌,
  List, [], ◌∷◌,
}
use poly_cminus.Uses.{put}
use poly_cminus.Dominators.Search.{has}
use poly_cminus.Dominators.Iteration.{Idom, is_block}

-- The walk of `generate_dom_frontier` from one block behind `b`.
abbrev pub add_block : ℕ → List ℕ → List ℕ
add_block b bs = if has bs b then bs else b ∷ bs

unfoldable pub climb_frontier : ℕ → Idom → ℕ → ℕ → (ℕ → List ℕ) → Option (ℕ → List ℕ)
climb_frontier zero idom b temp frontier = none
climb_frontier (suc fuel) idom b temp frontier =
    let rest = idom temp >>= λ up.
    climb_frontier fuel idom b up (put frontier temp (add_block b (frontier temp))) in
    if is_block (idom b) temp then some frontier else rest

abbrev pub climb_each : ℕ → Idom → ℕ → List ℕ → (ℕ → List ℕ) → Option (ℕ → List ℕ)
climb_each fuel idom b [] frontier = some frontier
climb_each fuel idom b (p ∷ ps) frontier =
    climb_frontier fuel idom b p frontier >>= climb_each fuel idom b ps

unfoldable pub generate_dom_frontier :
    (ℕ → List ℕ) → ℕ → Idom → List ℕ → (ℕ → List ℕ) → Option (ℕ → List ℕ)
generate_dom_frontier behind fuel idom [] frontier = some frontier
generate_dom_frontier behind fuel idom (b ∷ bs) frontier =
    (if leb 2 (length (behind b))
      then climb_each fuel idom b (behind b) frontier
      else some frontier)
    >>= generate_dom_frontier behind fuel idom bs

-- `none` stands for a null key too.
abbrev pub add_child : ℕ → Option ℕ → (ℕ → List ℕ) → (ℕ → List ℕ)
add_child b none children = children
add_child b (some d) children =
    if d == b then children else put children d (add_block b (children d))

abbrev pub generate_dom_tree_succ_blocks : Idom → List ℕ → (ℕ → List ℕ) → ℕ → List ℕ
generate_dom_tree_succ_blocks idom [] children = children
generate_dom_tree_succ_blocks idom (b ∷ bs) children =
    generate_dom_tree_succ_blocks idom bs (add_child b (idom b) children)

-- Does every way to `succ` lead through `prev`, by the tree?
unfoldable pub is_dominator : ℕ → Idom → ℕ → ℕ → Option Bool
is_dominator zero idom succ prev = none
is_dominator (suc fuel) idom succ prev = idom succ >>= λ up.
    let above = is_dominator fuel idom up prev in
    if up == succ then some false else if up == prev then some true else above
