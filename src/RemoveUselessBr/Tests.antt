-- ===== src/RemoveUselessBr/Tests.antt =====
-- Runs of the pass of src/Optimize/RemoveUselessBr.cc on two blocks.
use poly_cminus.Prelude.{some, List, [], ◌∷◌, map, ◌≡◌, refl}
use poly_cminus.RemoveUselessBr.{Block, Graph, br, cond_br, ret, other, cut, cut_block, run}
use poly_cminus.RemoveUselessBr.Edges.{AreFilled, IsWithin, IsGraph, terminator_edge, run-IsGraph}

-- The first block branches to both and has a `ret` behind the branch; the second one returns.
abbrev two_blocks : List Block
two_blocks =
    record { id = 0; insts = other 5 ∷ cond_br 0 1 ∷ ret ∷ br 0 ∷ [] }
    ∷ record { id = 1; insts = ret ∷ br 0 ∷ [] }
    ∷ []

-- The edges from before.
abbrev old_edges : Graph
old_edges = record { pre = λ x. []; succ = λ x. [] }

cut_example : cut (other 5 ∷ cond_br 0 1 ∷ ret ∷ br 0 ∷ []) ≡ other 5 ∷ cond_br 0 1 ∷ []
unfolding cut
cut_example = refl

two_blocks-AreFilled : AreFilled two_blocks
two_blocks-AreFilled = ((λ e. cc), ((λ e. cc), tt))

old_edges-IsWithin : IsWithin two_blocks old_edges
old_edges-IsWithin x e = (refl, refl)

run-IsGraph_example :
    (h : Graph) × (run two_blocks old_edges
      ≡ some (record { blocks = map cut_block two_blocks; graph = h }))
    × IsGraph (terminator_edge two_blocks) h
run-IsGraph_example = run-IsGraph two_blocks old_edges two_blocks-AreFilled old_edges-IsWithin
