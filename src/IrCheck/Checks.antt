-- ===== src/IrCheck/Checks.antt =====
-- The checks of src/Optimize/IRCheck.cc on phis, use lists, operands and dominance, and `run`.
use poly_cminus.Prelude.{
  ℕ, ◌==◌, ◌&&◌, ◌||◌, ltb, length, Bool, true, false, if◌then◌else◌, Option, none, some, List, [],
  ◌∷◌, ◌++◌,
}
use poly_cminus.Uses.{Use, operand_at}
use poly_cminus.Dominators.Search.{has, Func}
use poly_cminus.Dominators.Run.{Fuel, Dominance, run_dominators}
use poly_cminus.Dominators.Frontier.{is_dominator}
use poly_cminus.Dominators.Iteration.{is_block}
use poly_cminus.IrCheck.Values.{
  Module, is_phi, is_instruction, is_basic_block, is_constant, every, set_of_uses, distance, same,
  incoming_blocks,
}
use poly_cminus.IrCheck.Structure.{
  operands_of, every_block, check_parent, check_phi_position, check_ret_br_position,
  check_terminate, check_pred_succ, check_pred_succ_br, first_of,
}

module _ (m : Module) where
  abbrev pub block_in : ℕ → Option ℕ → Bool
  block_in f none = false
  block_in f (some b) = is_basic_block (m.class_of b) && has (m.basic_blocks f) b

  -- The loop stops at the first instruction that is no phi.
  abbrev pub phi_blocks : ℕ → List ℕ → Bool
  phi_blocks f [] = true
  phi_blocks f (i ∷ is) =
      let rest = phi_blocks f is in
      if is_phi (m.kind i)
      then every (block_in f) (incoming_blocks (operands_of m i)) && rest
      else true

  unfoldable pub check_correct_phi : Bool
  check_correct_phi = every_block m λ f b. phi_blocks f (m.instructions b)

  unfoldable pub check_entry : Bool
  check_entry =
      every (λ f. same (first_of m (m.basic_blocks f)) (first_of m (m.basic_blocks f))) m.functions

  abbrev pub all_of : (ℕ → List ℕ) → List ℕ → List ℕ
  all_of lists [] = []
  all_of lists (x ∷ xs) = lists x ++ all_of lists xs

  abbrev pub instructions_of : ℕ → List ℕ
  instructions_of f = all_of m.instructions (m.basic_blocks f)

  abbrev pub all_users : List ℕ
  all_users = all_of instructions_of m.functions

  abbrev pub is_used_at : ℕ → Use → Bool
  is_used_at v u = has all_users u.user && is_block (operand_at (operands_of m u.user) u.arg_no) v

  -- The test that stands there for each kind of value.
  abbrev pub uses_hold : ℕ → Bool
  uses_hold v =
      let uses = m.store.use_list v in
      length (set_of_uses uses) == length uses && every (is_used_at v) uses

  unfoldable pub check_use_list : Bool
  check_use_list =
      every uses_hold m.globals
      && every
          (λ f.
            uses_hold f
            && (every uses_hold (m.args f)
                && every (λ b. uses_hold b && every uses_hold (m.instructions b))
                    (m.basic_blocks f)))
          m.functions

  abbrev pub defined_in : ℕ → List ℕ
  defined_in f = m.args f ++ all_of (λ b. b ∷ m.instructions b) (m.basic_blocks f)

  abbrev pub is_defined : ℕ → Option ℕ → Bool
  is_defined f none = false
  is_defined f (some v) =
      is_constant (m.class_of v) || (has (defined_in f) v || has (m.globals ++ m.functions) v)

  unfoldable pub check_operand_exit : Bool
  check_operand_exit =
      every_block m λ f b. every (λ i. every (is_defined f) (operands_of m i)) (m.instructions b)

  -- The dominators of a function of two blocks or more, which lose the blocks that are not reached;
  -- those of a smaller one are not computed.
  unfoldable pub dominance_of : Fuel → ℕ → Option Dominance
  dominance_of fuel f =
      let func : Func = record { blocks = m.basic_blocks f; graph = m.graph } in
      if ltb 1 (length (m.basic_blocks f))
      then run_dominators fuel func
      else some (record {
        func = func;
        idom = λ b. none;
        dom_frontier = λ b. [];
        dom_tree_succ_blocks = λ b. [];
      })

  abbrev pub says : Option Bool → Bool
  says none = false
  says (some b) = b

  abbrev pub defined_before : ℕ → Dominance → ℕ → ℕ → ℕ → Option ℕ → Bool
  defined_before climb d b i op none = false
  defined_before climb d b i op (some op_bb) =
      if op_bb == b
      then ltb (distance (m.instructions b) op) (distance (m.instructions b) i)
      else says (is_dominator climb d.idom b op_bb)

  abbrev pub dominates_use : ℕ → Dominance → ℕ → ℕ → Option ℕ → Bool
  dominates_use climb d b i none = true
  dominates_use climb d b i (some op) =
      if is_instruction (m.class_of op) then defined_before climb d b i op (m.parent op) else true

  abbrev pub uses_dominated : ℕ → Dominance → ℕ → ℕ → Bool
  uses_dominated climb d b i =
      is_phi (m.kind i) || every (dominates_use climb d b i) (operands_of m i)

  abbrev pub function_dominated : ℕ → Option Dominance → Bool
  function_dominated climb none = false
  function_dominated climb (some d) =
      every (λ b. every (uses_dominated climb d b) (m.instructions b)) d.func.blocks

  unfoldable pub check_ssa : Fuel → Bool
  check_ssa fuel = every (λ f. function_dominated fuel.climb (dominance_of fuel f)) m.functions

  unfoldable pub run : Fuel → Bool
  run fuel =
      check_parent m
      && (check_phi_position m
          && (check_ret_br_position m
              && (check_terminate m
                  && (check_pred_succ m
                      && (check_entry
                          && (check_operand_exit
                              && (check_use_list
                                  && (check_pred_succ_br m
                                      && (check_correct_phi && check_ssa fuel)))))))))
