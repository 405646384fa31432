-- ===== src/Sccp/Solver.antt =====
-- The class SCCPSolver of include/Optimize/SCCPSolver.hh. `none` is an exit of the compiler.
pub mod Visit
pub mod Solve
pub mod Unknown
pub mod Rises
mod Tests
use poly_cminus.Prelude.{
  ℕ, zero, suc, ◌==◌, ◌&&◌, ◌||◌, Bool, true, false, if◌then◌else◌, Option, none, some, ◌>>=◌, List,
  [], ◌∷◌, ◌++◌,
}
use poly_cminus.Ir.{OpId, IntTy, i1, i32, i64}
use poly_cminus.ConstFold.{fold_int, result_type, CmpOp, compare_int}
use poly_cminus.Sccp.Lattice.{
  Constant, int_const, fp_const, LatticeType, unknown, constant, overdefined, Lattice, new_lattice,
  is_unknown, is_constant, is_overdefined, Marked, mark_overdefined, mark_constant, mergein,
}

-- An operand: a constant, or the identity of another value.
pub data Operand : Type 0 where
  const : Constant → Operand
  value : ℕ → Operand

pub data FloatOp : Type 0 where
  fadd fsub fmul fdiv : FloatOp

pub data BinaryOp : Type 0 where
  int_op : OpId → BinaryOp
  float_op : FloatOp → BinaryOp

-- The instructions that `visit` tells apart. The incoming values of a phi stand with their
-- blocks, and `zext` with the size of its type in bytes.
pub data Inst : Type 0 where
  phi : List (Operand × ℕ) → Inst
  binary : BinaryOp → Operand → Operand → Inst
  cmp fcmp : CmpOp → Operand → Operand → Inst
  call alloca load gep ptrtoint inttoptr store ret other : Inst
  br : ℕ → Inst
  cond_br : Operand → ℕ → ℕ → Inst
  zext : ℕ → Operand → Inst
  fptosi sitofp : Operand → Inst

-- An instruction with its identity and its parent.
pub record Located : Type 0 where
  pub id : ℕ
  pub parent : ℕ
  pub inst : Inst

-- The instructions of each block, and the use list of each value.
pub record Program : Type 0 where
  pub instructions : ℕ → List Located
  pub use_list : ℕ → List Located

-- The arithmetic of the hardware's `float`, which is not part of the source.
pub record Floats : Type 0 where
  pub fold : FloatOp → ℕ → ℕ → ℕ
  pub compare : CmpOp → Constant → Constant → Bool
  pub to_int : ℕ → ℕ
  pub of_int : ℕ → ℕ

pub record State : Type 0 where
  pub bb_executable : List ℕ
  pub bb_worklist : List ℕ
  pub inst_worklist : List ℕ
  pub overdefined_inst_worklist : List ℕ
  pub value_state : ℕ → Lattice
  pub executable_edges : List (ℕ × ℕ)

abbrev pub contains : List ℕ → ℕ → Bool
contains [] x = false
contains (y ∷ ys) x = x == y || contains ys x

abbrev pub contains_edge : List (ℕ × ℕ) → ℕ → ℕ → Bool
contains_edge [] x y = false
contains_edge (e ∷ es) x y = (x == e.0 && y == e.1) || contains_edge es x y

-- `get_value_state`: a constant is its own element.
abbrev pub get_value_state : State → Operand → Lattice
get_value_state s (const c) = record { tag = constant; val = some c }
get_value_state s (value v) = s.value_state v

abbrev pub set_state : (ℕ → Lattice) → ℕ → Lattice → ℕ → Lattice
set_state f v lat x = if x == v then lat else f x

unfoldable pub push_to_worklist : Lattice → ℕ → State → State
push_to_worklist lat v s =
    if is_overdefined lat.tag
    then record s { overdefined_inst_worklist = s.overdefined_inst_worklist ++ v ∷ [] }
    else record s { inst_worklist = s.inst_worklist ++ v ∷ [] }

-- An element of the map was marked: it is stored, and pushed if it changed.
abbrev pub store_marked : ℕ → Marked → State → State
store_marked v m s =
    if m.changed
    then push_to_worklist m.now v (record s { value_state = set_state s.value_state v m.now })
    else s

unfoldable pub mark_value_overdefined : ℕ → State → State
mark_value_overdefined v s = store_marked v (mark_overdefined (s.value_state v)) s

unfoldable pub mark_value_constant : ℕ → Constant → State → Option State
mark_value_constant v c s = mark_constant c (s.value_state v) >>= λ m. some (store_marked v m s)

unfoldable pub mergein_value : ℕ → Lattice → State → State
mergein_value v lat s = store_marked v (mergein (s.value_state v) lat) s

-- The loop of `visit_phi` over the feasible incoming edges, which ends at an overdefined element.
unfoldable pub merge_incoming : State → ℕ → Lattice → List (Operand × ℕ) → Lattice
merge_incoming s parent lat [] = lat
merge_incoming s parent lat (incoming ∷ rest) =
    let skipped = merge_incoming s parent lat rest in
    let merged = (mergein lat (get_value_state s incoming.0)).now in
    let continued = merge_incoming s parent merged rest in
    if contains_edge s.executable_edges incoming.1 parent
    then if is_overdefined merged.tag then merged else continued
    else skipped

unfoldable pub visit_phi : ℕ → ℕ → List (Operand × ℕ) → State → State
visit_phi id parent incoming s =
    if is_overdefined (s.value_state id).tag
    then s
    else mergein_value id (merge_incoming s parent (s.value_state id) incoming) s

-- The phis at the head of a block.
abbrev pub visit_phis : List Located → State → State
visit_phis [] s = s
visit_phis (i ∷ is) s = elim (i.inst) [
  | phi incoming ↦ visit_phis is (visit_phi i.id i.parent incoming s)
  | _ ↦ s
]

unfoldable pub mark_block_executable : ℕ → State → State
mark_block_executable bb s =
    if contains s.bb_executable bb
    then s
    else record s { bb_executable = bb ∷ s.bb_executable; bb_worklist = s.bb_worklist ++ bb ∷ [] }

unfoldable pub mark_edge_executable : Program → ℕ → ℕ → State → State
mark_edge_executable p from to s =
    if contains_edge s.executable_edges from to
    then s
    else (let s' = record s { executable_edges = (from, to) ∷ s.executable_edges } in
        if contains s.bb_executable to
        then visit_phis (p.instructions to) s'
        else mark_block_executable to s')
