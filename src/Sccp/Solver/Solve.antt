-- ===== src/Sccp/Solver/Solve.antt =====
-- SCCPSolver::solve and its worklists.
use poly_cminus.Prelude.{
  ℕ, zero, suc, ◌&&◌, Bool, true, false, if◌then◌else◌, Option, none, some, ◌>>=◌, List, [], ◌∷◌,
}
use poly_cminus.Sccp.Lattice.{is_overdefined}
use poly_cminus.Sccp.Solver.{Located, Program, Floats, State, contains}
use poly_cminus.Sccp.Solver.Visit.{visit}

-- The three inner loops of `solve`.
pub data Phase : Type 0 where
  overdefined_insts insts blocks : Phase

module _ (floats : Floats) (p : Program) where
  unfoldable pub visit_all : List Located → State → Option State
  visit_all [] s = some s
  visit_all (i ∷ is) s = visit floats p i s >>= λ s'. visit_all is s'

  -- `mark_users_as_changed`, with `operand_changed_state` for each user.
  unfoldable pub mark_users_as_changed : List Located → State → Option State
  mark_users_as_changed [] s = some s
  mark_users_as_changed (user ∷ users) s =
      (if contains s.bb_executable user.parent then visit floats p user s else some s) >>= λ s'.
      mark_users_as_changed users s'

  -- What one turn of an inner loop does with the head of its worklist.
  abbrev pub overdefined_turn : ℕ → List ℕ → State → Option State
  overdefined_turn v vs s =
      mark_users_as_changed (p.use_list v) (record s { overdefined_inst_worklist = vs })

  abbrev pub inst_turn : ℕ → List ℕ → State → Option State
  inst_turn v vs s =
      if is_overdefined (s.value_state v).tag
      then mark_users_as_changed (p.use_list v) (record s { inst_worklist = vs })
      else some (record s { inst_worklist = vs })

  abbrev pub block_turn : ℕ → List ℕ → State → Option State
  block_turn bb bbs s = visit_all (p.instructions bb) (record s { bb_worklist = bbs })

  abbrev pub is_empty : List ℕ → Bool
  is_empty [] = true
  is_empty (x ∷ xs) = false

  abbrev pub all_empty : State → Bool
  all_empty s =
      is_empty s.bb_worklist && is_empty s.inst_worklist && is_empty s.overdefined_inst_worklist

  -- `solve` from an inner loop on, on fuel: `none` is an exit, or that the fuel is used up.
  unfoldable pub solve_from : ℕ → Phase → State → Option State
  solve_from zero phase s = none
  solve_from (suc fuel) overdefined_insts s = elim (s.overdefined_inst_worklist) [
    | [] ↦ solve_from fuel insts s
    | v ∷ vs ↦ overdefined_turn v vs s >>= λ s'. solve_from fuel overdefined_insts s'
  ]
  solve_from (suc fuel) insts s = elim (s.inst_worklist) [
    | [] ↦ solve_from fuel blocks s
    | v ∷ vs ↦ inst_turn v vs s >>= λ s'. solve_from fuel insts s'
  ]
  solve_from (suc fuel) blocks s = elim (s.bb_worklist) [
    | [] ↦
        (let again = solve_from fuel overdefined_insts s in if all_empty s then some s else again)
    | bb ∷ bbs ↦ block_turn bb bbs s >>= λ s'. solve_from fuel blocks s'
  ]
