-- ===== src/Sccp/Solver/Rises/Solves.antt =====
-- A whole run only raises values, only adds blocks and edges, and ends with empty worklists.
use poly_cminus.Prelude.{
  ℕ, zero, suc, Bool, true, false, if◌then◌else◌, Option, none, some, ◌>>=◌, List, [], ◌∷◌, ◌≡◌,
  refl, sym, subst,
}
use poly_cminus.Sccp.Lattice.{is_overdefined}
use poly_cminus.Sccp.Solver.{Located, Program, Floats, State, contains}
use poly_cminus.Sccp.Solver.Visit.{visit}
use poly_cminus.Sccp.Solver.Solve.{
  Phase, overdefined_insts, insts, blocks, visit_all, mark_users_as_changed, overdefined_turn,
  inst_turn, block_turn, all_empty, solve_from,
}
use poly_cminus.Sccp.Solver.Rises.{Rises, Rises-refl, Rises-trans}
use poly_cminus.Sccp.Solver.Rises.Visits.{
  RisesTo, RisesTo-some, RisesTo-if, RisesTo-bind, visit-RisesTo,
}

module _ (floats : Floats) (p : Program) where
  -- A step and what follows it.
  RisesTo-step :
      (s : State) (o : Option State) (f : State → Option State)
      → RisesTo s o
      → ((t : State) → RisesTo t (f t))
      → RisesTo s (o >>= f)
  RisesTo-step s o f h h' =
      RisesTo-bind s o f (λ t e s' e'. Rises-trans s t s' (h t e) (h' t s' e'))

  visit_all-RisesTo : (is : List Located) (s : State) → RisesTo s (visit_all floats p is s)
  unfolding visit_all
  visit_all-RisesTo [] s = RisesTo-some s s (Rises-refl s)
  visit_all-RisesTo (i ∷ is) s =
      RisesTo-step s (visit floats p i s) (λ s'. visit_all floats p is s')
        (visit-RisesTo floats p i s) (λ t. visit_all-RisesTo is t)

  mark_users_as_changed-RisesTo :
      (users : List Located) (s : State) → RisesTo s (mark_users_as_changed floats p users s)
  unfolding mark_users_as_changed
  mark_users_as_changed-RisesTo [] s = RisesTo-some s s (Rises-refl s)
  mark_users_as_changed-RisesTo (user ∷ users) s =
      let executable = contains s.bb_executable user.parent in
      RisesTo-step s (if executable then visit floats p user s else some s)
        (λ s'. mark_users_as_changed floats p users s')
        (RisesTo-if s executable (visit floats p user s) (some s)
          (λ _. visit-RisesTo floats p user s) (λ _. RisesTo-some s s (Rises-refl s)))
        (λ t. mark_users_as_changed-RisesTo users t)

  -- The worklists are not part of the order.
  popped : (s t : State) (o : Option State) → Rises s t → RisesTo t o → RisesTo s o
  popped s t o h h' s' e = Rises-trans s t s' h (h' s' e)

  overdefined_turn-RisesTo :
      (v : ℕ) (vs : List ℕ) (s : State) → RisesTo s (overdefined_turn floats p v vs s)
  overdefined_turn-RisesTo v vs s =
      let t = record s { overdefined_inst_worklist = vs } in
      popped s t (overdefined_turn floats p v vs s)
        (record { values = (Rises-refl s).values; blocks = λ b h. h; edges = λ x y h. h })
        (mark_users_as_changed-RisesTo (p.use_list v) t)

  inst_turn-RisesTo : (v : ℕ) (vs : List ℕ) (s : State) → RisesTo s (inst_turn floats p v vs s)
  inst_turn-RisesTo v vs s =
      let t = record s { inst_worklist = vs } in
      popped s t (inst_turn floats p v vs s)
        (record { values = (Rises-refl s).values; blocks = λ b h. h; edges = λ x y h. h })
        (RisesTo-if t (is_overdefined (s.value_state v).tag)
          (mark_users_as_changed floats p (p.use_list v) t) (some t)
          (λ _. mark_users_as_changed-RisesTo (p.use_list v) t)
          (λ _. RisesTo-some t t (Rises-refl t)))

  block_turn-RisesTo :
      (bb : ℕ) (bbs : List ℕ) (s : State) → RisesTo s (block_turn floats p bb bbs s)
  block_turn-RisesTo bb bbs s =
      let t = record s { bb_worklist = bbs } in
      popped s t (block_turn floats p bb bbs s)
        (record { values = (Rises-refl s).values; blocks = λ b h. h; edges = λ x y h. h })
        (visit_all-RisesTo (p.instructions bb) t)

  -- The result of `solve_from` in each phase.
  abbrev Ends : State → Option State → Type 0
  Ends s o = (s' : State) → o ≡ some s' → Rises s s' × (all_empty floats p s' ≡ true)

  Ends-step :
      (s : State) (o : Option State) (f : State → Option State)
      → RisesTo s o
      → ((t : State) → Ends t (f t))
      → Ends s (o >>= f)
  Ends-step s (some t) f h h' s' e =
      let (r, empty) = h' t s' e in (Rises-trans s t s' (h t refl) r, empty)
  Ends-step s none f h h' s' e = cc

  Ends-last :
      (s : State) (b : Bool) (o : Option State)
      → b ≡ all_empty floats p s
      → Ends s o
      → Ends s (if b then some s else o)
  Ends-last s true o h h' s' e =
      let same : s ≡ s' = some-injective e in
      subst (λ (t : State). Rises s t × (all_empty floats p t ≡ true)) same (Rises-refl s, sym h)
    where
      some-injective : {x y : State} → some x ≡ some y → x ≡ y
      some-injective e = cc
  Ends-last s false o h h' s' e = h' s' e

  solve_from-Ends :
      (fuel : ℕ) (phase : Phase) (s : State) → Ends s (solve_from floats p fuel phase s)
  unfolding solve_from
  solve_from-Ends zero phase s = λ s' e. cc
  solve_from-Ends (suc fuel) overdefined_insts s =
      elim (s.overdefined_inst_worklist)
        as (λ l. Ends s (elim l as (λ x. Option State) [
          | [] ↦ solve_from floats p fuel insts s
          | v ∷ vs ↦ overdefined_turn floats p v vs s >>= λ s'.
              solve_from floats p fuel overdefined_insts s'
        ])) [
          | [] ↦ solve_from-Ends fuel insts s
          | v ∷ vs ↦
              Ends-step s (overdefined_turn floats p v vs s)
                (λ s'. solve_from floats p fuel overdefined_insts s')
                (overdefined_turn-RisesTo v vs s) (λ t. solve_from-Ends fuel overdefined_insts t)
        ]
  solve_from-Ends (suc fuel) insts s =
      elim (s.inst_worklist)
        as (λ l. Ends s (elim l as (λ x. Option State) [
          | [] ↦ solve_from floats p fuel blocks s
          | v ∷ vs ↦ inst_turn floats p v vs s >>= λ s'. solve_from floats p fuel insts s'
        ])) [
          | [] ↦ solve_from-Ends fuel blocks s
          | v ∷ vs ↦
              Ends-step s (inst_turn floats p v vs s) (λ s'. solve_from floats p fuel insts s')
                (inst_turn-RisesTo v vs s) (λ t. solve_from-Ends fuel insts t)
        ]
  solve_from-Ends (suc fuel) blocks s =
      elim (s.bb_worklist)
        as (λ l. Ends s (elim l as (λ x. Option State) [
          | [] ↦
              (let again = solve_from floats p fuel overdefined_insts s in
                if all_empty floats p s then some s else again)
          | bb ∷ bbs ↦ block_turn floats p bb bbs s >>= λ s'. solve_from floats p fuel blocks s'
        ])) [
          | [] ↦
              Ends-last s (all_empty floats p s) (solve_from floats p fuel overdefined_insts s) refl
                (solve_from-Ends fuel overdefined_insts s)
          | bb ∷ bbs ↦
              Ends-step s (block_turn floats p bb bbs s) (λ s'. solve_from floats p fuel blocks s')
                (block_turn-RisesTo bb bbs s) (λ t. solve_from-Ends fuel blocks t)
        ]

  -- Whatever the phase it starts from, a run of `solve` that returns has only raised values, only
  -- added executable blocks and edges, and ends with three empty worklists.
  pub solve_from-Rises :
      (fuel : ℕ) (phase : Phase) (s s' : State)
      → solve_from floats p fuel phase s ≡ some s'
      → Rises s s' × (all_empty floats p s' ≡ true)
  solve_from-Rises fuel phase s s' e = solve_from-Ends fuel phase s s' e
