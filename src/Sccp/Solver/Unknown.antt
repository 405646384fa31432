-- ===== src/Sccp/Solver/Unknown.antt =====
-- SCCPSolver::process_unknown, on the blocks of the function. Whether the type of an instruction
-- is void is an argument.
use poly_cminus.Prelude.{
  ℕ, ◌&&◌, Bool, true, false, not, if◌then◌else◌, Option, none, some, List, [], ◌∷◌, ◌≡◌, refl, ◌∙◌,
}
use poly_cminus.Sccp.Lattice.{is_unknown}
use poly_cminus.Sccp.Solver.{
  Inst, ret, br, cond_br, Located, Program, State, contains, get_value_state,
  mark_value_overdefined, mark_edge_executable,
}
use poly_cminus.Sccp.Solver.Rises.{
  Rises, Rises-refl, Rises-trans, mark_value_overdefined-Rises, mark_edge_executable-Rises,
}

pub record Processed : Type 0 where
  pub state : State
  pub changed : Bool

abbrev pub is_terminator : Inst → Bool
is_terminator ret = true
is_terminator (br to) = true
is_terminator (cond_br cond to other_to) = true
is_terminator i = false

-- The last instruction, where it is a terminator.
abbrev pub get_terminator : List Located → Option Inst
get_terminator [] = none
get_terminator (i ∷ []) = if is_terminator i.inst then some i.inst else none
get_terminator (i ∷ j ∷ is) = get_terminator (j ∷ is)

-- A run from `r` to `r'`: values rise, and nothing is changed unless it is said.
record Goes (r r' : Processed) : Type 0 where
  rises : Rises r.state r'.state
  same : r'.changed ≡ false → r' ≡ r

Goes-refl : (r : Processed) → Goes r r
Goes-refl r = record { rises = Rises-refl r.state; same = λ e. refl }

Goes-trans : (r t u : Processed) → Goes r t → Goes t u → Goes r u
Goes-trans r t u g h = record {
  rises = Rises-trans r.state t.state u.state g.rises h.rises;
  same = λ e. h.same e ∙ g.same (cc (h.same e));
}

Goes-if : (b : Bool) (r t : Processed) → Goes r t → Goes r (if b then t else r)
Goes-if true r t g = g
Goes-if false r t g = Goes-refl r

changed-Goes :
    (r : Processed) (s : State) → Rises r.state s → Goes r (record { state = s; changed = true })
changed-Goes r s h = record { rises = h; same = λ e. cc }

module _ (p : Program) (is_void : Located → Bool) where
  abbrev pub process_inst : Located → Processed → Processed
  process_inst i r =
      if not (is_void i) && is_unknown (r.state.value_state i.id).tag
      then record { state = mark_value_overdefined i.id r.state; changed = true }
      else r

  abbrev pub process_insts : List Located → Processed → Processed
  process_insts [] r = r
  process_insts (i ∷ is) r = process_insts is (process_inst i r)

  abbrev pub process_terminator : ℕ → Option Inst → Processed → Processed
  process_terminator bb (some (cond_br cond to other_to)) r =
      if is_unknown (get_value_state r.state cond).tag
      then record { state = mark_edge_executable p bb to r.state; changed = true }
      else r
  process_terminator bb o r = r

  abbrev pub process_block : ℕ → Processed → Processed
  process_block bb r =
      if contains r.state.bb_executable bb
      then process_terminator bb (get_terminator (p.instructions bb))
          (process_insts (p.instructions bb) r)
      else r

  abbrev pub process_blocks : List ℕ → Processed → Processed
  process_blocks [] r = r
  process_blocks (bb ∷ bbs) r = process_blocks bbs (process_block bb r)

  abbrev pub process_unknown : List ℕ → State → Processed
  process_unknown bbs s = process_blocks bbs (record { state = s; changed = false })

  process_insts-Goes : (is : List Located) (r : Processed) → Goes r (process_insts is r)
  process_insts-Goes [] r = Goes-refl r
  process_insts-Goes (i ∷ is) r =
      Goes-trans r (process_inst i r) _
        (Goes-if _ r _ (changed-Goes r _ (mark_value_overdefined-Rises i.id r.state)))
        (process_insts-Goes is (process_inst i r))

  process_terminator-Goes :
      (bb : ℕ) (o : Option Inst) (r : Processed) → Goes r (process_terminator bb o r)
  process_terminator-Goes bb (some (cond_br cond to other_to)) r =
      Goes-if _ r _ (changed-Goes r _ (mark_edge_executable-Rises p bb to r.state))
  process_terminator-Goes bb o r = Goes-refl r

  process_blocks-Goes : (bbs : List ℕ) (r : Processed) → Goes r (process_blocks bbs r)
  process_blocks-Goes [] r = Goes-refl r
  process_blocks-Goes (bb ∷ bbs) r =
      let is = p.instructions bb in
      Goes-trans r (process_block bb r) _
        (Goes-if (contains r.state.bb_executable bb) r _ (
          Goes-trans r (process_insts is r) _ (process_insts-Goes is r)
            (process_terminator-Goes bb (get_terminator is) (process_insts is r))))
        (process_blocks-Goes bbs (process_block bb r))

  -- process_unknown only raises values and only adds executable blocks and edges, and where it
  -- returns false it has changed nothing.
  pub process_unknown-Rises :
      (bbs : List ℕ) (s : State)
      → Rises s (process_unknown bbs s).state
        × ((process_unknown bbs s).changed ≡ false → (process_unknown bbs s).state ≡ s)
  process_unknown-Rises bbs s =
      let g = process_blocks-Goes bbs (record { state = s; changed = false }) in
      (g.rises, λ e. cc (g.same e))
