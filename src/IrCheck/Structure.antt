-- ===== src/IrCheck/Structure.antt =====
-- The checks of src/Optimize/IRCheck.cc on parents, positions, terminators and edges.
use poly_cminus.Prelude.{
  ℕ, ◌&&◌, ◌||◌, Bool, true, false, not, if◌then◌else◌, Option, none, some, ◌>>=◌, List, [], ◌∷◌,
}
use poly_cminus.Dominators.Search.{has}
use poly_cminus.Dominators.Iteration.{is_set, is_block}
use poly_cminus.IrCheck.Values.{
  Module, is_phi, is_br_or_ret, is_terminator, is_basic_block, every, last_of, is_unique, names,
}

module _ (m : Module) where
  abbrev pub get_terminator : ℕ → Option ℕ
  get_terminator b =
      last_of (m.instructions b) >>= λ i. if is_terminator (m.kind i) then some i else none

  abbrev pub operands_of : ℕ → List (Option ℕ)
  operands_of u = m.store.operands u

  abbrev pub terminator_operands : ℕ → Option (List (Option ℕ))
  terminator_operands b = get_terminator b >>= λ i. some (operands_of i)

  -- The loops over functions and blocks.
  abbrev pub every_block : (ℕ → ℕ → Bool) → Bool
  every_block p = every (λ f. every (p f) (m.basic_blocks f)) m.functions

  abbrev pub parent_is : ℕ → ℕ → Bool
  parent_is v p = is_block (m.parent v) p

  unfoldable pub check_parent : Bool
  check_parent = every_block λ f b.
      parent_is b f
      && every (λ i. parent_is i b && is_block (m.parent i >>= m.parent) f) (m.instructions b)

  abbrev pub phis_first : Bool → List ℕ → Bool
  phis_first pos_begin [] = true
  phis_first pos_begin (i ∷ is) =
      if is_phi (m.kind i) then pos_begin && phis_first pos_begin is else phis_first false is

  unfoldable pub check_phi_position : Bool
  check_phi_position = every_block λ f b. phis_first true (m.instructions b)

  abbrev pub is_last : ℕ → ℕ → Bool
  is_last b i = not (is_br_or_ret (m.kind i)) || is_block (get_terminator b) i

  unfoldable pub check_ret_br_position : Bool
  check_ret_br_position = every_block λ f b. every (is_last b) (m.instructions b)

  unfoldable pub check_terminate : Bool
  check_terminate = every_block λ f b. is_set (get_terminator b)

  abbrev pub agrees : (ℕ → List ℕ) → (ℕ → List ℕ) → ℕ → Bool
  agrees near far b = is_unique (near b) && every (λ x. has (far x) b) (near b)

  unfoldable pub check_pred_succ : Bool
  check_pred_succ =
      every_block λ f b. agrees m.graph.pre m.graph.succ b && agrees m.graph.succ m.graph.pre b

  -- Is the block among the operands of the terminator, which is followed where it is null?
  abbrev pub among : Option (List (Option ℕ)) → ℕ → Bool
  among none to = false
  among (some os) to = every is_set os && names os to

  abbrev pub branches_to : ℕ → ℕ → Bool
  branches_to from to = among (terminator_operands from) to

  abbrev pub is_successor : ℕ → Option ℕ → Bool
  is_successor b none = false
  is_successor b (some o) = not (is_basic_block (m.class_of o)) || has (m.graph.succ b) o

  abbrev pub all_successors : ℕ → Option (List (Option ℕ)) → Bool
  all_successors b none = false
  all_successors b (some os) = every (is_successor b) os

  abbrev pub targets_are_successors : ℕ → Bool
  targets_are_successors b = all_successors b (terminator_operands b)

  unfoldable pub check_pred_succ_br : Bool
  check_pred_succ_br = every_block λ f b.
      every (λ p. branches_to p b) (m.graph.pre b)
      && (every (branches_to b) (m.graph.succ b) && targets_are_successors b)

  -- `get_entry_block()` is the first block.
  abbrev pub first_of : List ℕ → Option ℕ
  first_of [] = none
  first_of (b ∷ bs) = some b
