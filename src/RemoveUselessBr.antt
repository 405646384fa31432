-- ===== src/RemoveUselessBr.antt =====
-- src/Optimize/RemoveUselessBr.cc: what stands behind the first terminator of a block is deleted,
-- and the lists of predecessors and successors are built again from the terminators.
pub mod Edges
mod Tests
use poly_cminus.Prelude.{
  ℕ, ◌==◌, ◌&&◌, ◌||◌, Bool, true, false, if◌then◌else◌, Option, none, some, ◌>>=◌, List, [], ◌∷◌,
  ◌++◌, map,
}
use poly_cminus.Uses.{put}

-- A branch names its blocks; any other instruction but `ret` is a number.
pub data Inst : Type 0 where
  br : ℕ → Inst
  cond_br : ℕ → ℕ → Inst
  ret : Inst
  other : ℕ → Inst

pub record Block : Type 0 where
  pub id : ℕ
  pub insts : List Inst

-- `is_br() or is_ret()`
abbrev pub ends : Inst → Bool
ends (br d) = true
ends (cond_br d e) = true
ends ret = true
ends (other n) = false

-- The instructions that are not deleted.
unfoldable pub cut : List Inst → List Inst
cut [] = []
cut (i ∷ is) = let rest = cut is in if ends i then i ∷ [] else i ∷ rest

-- `pre_bbs_` and `succ_bbs_` of every block.
pub record Graph : Type 0 where
  pub pre : ℕ → List ℕ
  pub succ : ℕ → List ℕ

abbrev pub clear : List Block → Graph → Graph
clear [] g = g
clear (b ∷ bs) g = clear bs (record { pre = put g.pre b.id []; succ = put g.succ b.id [] })

-- `add_pre_basic_block` and `add_succ_basic_block` for one edge.
unfoldable pub add_edge : ℕ → ℕ → Graph → Graph
add_edge from to g = record {
  pre = put g.pre to (g.pre to ++ from ∷ []);
  succ = put g.succ from (g.succ from ++ to ∷ []);
}

-- `back()`, undefined on an empty block.
abbrev pub last : List Inst → Option Inst
last [] = none
last (i ∷ []) = some i
last (i ∷ j ∷ is) = last (j ∷ is)

abbrev pub targets : Inst → List ℕ
targets (br d) = d ∷ []
targets (cond_br d e) = d ∷ e ∷ []
targets ret = []
targets (other n) = []

abbrev pub add_edges : ℕ → List ℕ → Graph → Graph
add_edges from [] g = g
add_edges from (to ∷ tos) g = add_edges from tos (add_edge from to g)

unfoldable pub connect : List Block → Graph → Option Graph
connect [] g = some g
connect (b ∷ bs) g = last b.insts >>= λ i. connect bs (add_edges b.id (targets i) g)

abbrev pub cut_block : Block → Block
cut_block b = record { id = b.id; insts = cut b.insts }

-- `run`, on one function.
unfoldable pub run : List Block → Graph → Option (record { blocks : List Block; graph : Graph })
run bs g =
    let cut_blocks = map cut_block bs in
    connect cut_blocks (clear cut_blocks g) >>= λ h.
    some (record { blocks = cut_blocks; graph = h })
