-- ===== src/Sccp/Solver/Tests.antt =====
-- The solver on a small function, and the lattice on small elements.
use poly_cminus.Prelude.{
  ℕ, zero, suc, Bool, true, false, Option, none, some, List, [], ◌∷◌, ◌≡◌, refl, ◌<◌,
}
use poly_cminus.Ir.{add, i32}
use poly_cminus.ConstFold.{eq}
use poly_cminus.Sccp.Lattice.{int_const, Lattice, constant, new_lattice, mergein}
use poly_cminus.Sccp.Lattice.Order.{◌⊑◌, mergein-join, mergein-changed, rank}
use poly_cminus.Sccp.Solver.{
  Operand, const, value, int_op, binary, cmp, cond_br, ret, Located, Program, Floats, State,
  mark_block_executable, mark_value_overdefined, mark_edge_executable, push_to_worklist,
}
use poly_cminus.Sccp.Solver.Solve.{Phase, blocks, solve_from, all_empty}
use poly_cminus.Sccp.Solver.Rises.{Rises}
use poly_cminus.Sccp.Solver.Unknown.{process_unknown, process_unknown-Rises}

abbrev no_floats : Floats
no_floats = record {
  fold = λ op a b. a;
  compare = λ op c d. false;
  to_int = λ x. x;
  of_int = λ x. x;
}

-- Block 0 is %1 = 1 + 2; %2 = %1 == 3; br %2, 1, 2. The other blocks return.
abbrev head : List Located
head =
    record {
      id = 1;
      parent = 0;
      inst = binary (int_op add) (const (int_const i32 1)) (const (int_const i32 2));
    }
    ∷ record { id = 2; parent = 0; inst = cmp eq (value 1) (const (int_const i32 3)) }
    ∷ record { id = 3; parent = 0; inst = cond_br (value 2) 1 2 }
    ∷ []

abbrev code : ℕ → List Located
code zero = head
code (suc b) = record { id = 4; parent = suc b; inst = ret } ∷ []

abbrev branching : Program
branching = record { instructions = code; use_list = λ v. head }

abbrev start : State
start = record {
  bb_executable = 0 ∷ [];
  bb_worklist = 0 ∷ [];
  inst_worklist = [];
  overdefined_inst_worklist = [];
  value_state = λ v. new_lattice;
  executable_edges = [];
}

abbrev state_or : State → Option State → State
state_or s none = s
state_or s (some t) = t

abbrev solved : Option State
solved = solve_from no_floats branching 12 blocks start

-- The run ends, and block 2 is not executable.
solve_returns : solved ≡ some (state_or start solved)
unfolding solve_from poly_cminus.Sccp.Solver.Solve.visit_all poly_cminus.Sccp.Solver.Visit.visit
    poly_cminus.Sccp.Solver.Visit.visit_binary poly_cminus.Sccp.Solver.Visit.on_constants
    poly_cminus.ConstFold.fold_int poly_cminus.Sccp.Solver.Visit.visit_cmp
    poly_cminus.Sccp.Solver.mergein_value mergein poly_cminus.Sccp.Solver.push_to_worklist
    poly_cminus.Sccp.Solver.Visit.visit_cond_br poly_cminus.ConstFold.compare_int
    poly_cminus.Sccp.Solver.mark_edge_executable poly_cminus.Sccp.Solver.mark_block_executable
solve_returns = refl

only_true_branch : (state_or start solved).bb_executable ≡ 1 ∷ 0 ∷ []
unfolding solve_from poly_cminus.Sccp.Solver.Solve.visit_all poly_cminus.Sccp.Solver.Visit.visit
    poly_cminus.Sccp.Solver.Visit.visit_binary poly_cminus.Sccp.Solver.Visit.on_constants
    poly_cminus.ConstFold.fold_int poly_cminus.Sccp.Solver.Visit.visit_cmp
    poly_cminus.Sccp.Solver.mergein_value mergein poly_cminus.Sccp.Solver.push_to_worklist
    poly_cminus.Sccp.Solver.Visit.visit_cond_br poly_cminus.ConstFold.compare_int
    poly_cminus.Sccp.Solver.mark_edge_executable poly_cminus.Sccp.Solver.mark_block_executable
only_true_branch = refl

mergein-join_example :
    let one : Lattice = record { tag = constant; val = some (int_const i32 1) } in
    (new_lattice ⊑ (mergein new_lattice one).now)
    × (one ⊑ (mergein new_lattice one).now)
    × ((c : Lattice) → new_lattice ⊑ c → one ⊑ c → (mergein new_lattice one).now ⊑ c)
mergein-join_example =
    mergein-join new_lattice (record { tag = constant; val = some (int_const i32 1) })

mergein-changed_example :
    let one : Lattice = record { tag = constant; val = some (int_const i32 1) } in
    ((mergein new_lattice one).changed ≡ true
      → rank new_lattice.tag < rank (mergein new_lattice one).now.tag)
    × ((mergein new_lattice one).changed ≡ false → (mergein new_lattice one).now ≡ new_lattice)
mergein-changed_example =
    mergein-changed new_lattice (record { tag = constant; val = some (int_const i32 1) })

abbrev returns_nothing : Located → Bool
returns_nothing i = false

-- The instructions of the first block are unknown at the start.
process_unknown-start :
    (process_unknown branching returns_nothing (0 ∷ []) (mark_block_executable 0 start)).changed
    ≡ true
unfolding mark_block_executable mark_value_overdefined mark_edge_executable push_to_worklist
process_unknown-start = refl

process_unknown-Rises_example :
    Rises start (process_unknown branching returns_nothing (0 ∷ 1 ∷ []) start).state
    × ((process_unknown branching returns_nothing (0 ∷ 1 ∷ []) start).changed ≡ false
        → (process_unknown branching returns_nothing (0 ∷ 1 ∷ []) start).state ≡ start)
process_unknown-Rises_example = process_unknown-Rises branching returns_nothing (0 ∷ 1 ∷ []) start
