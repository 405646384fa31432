-- ===== src/IrCheck/Tests.antt =====
-- The checks of src/Optimize/IRCheck.cc on a function of two blocks.
use mathlib.Core.List.{Memᴰ}
use poly_cminus.Prelude.{
  lookup, ℕ, zero, suc, true, false, Option, none, some, List, [], ◌∷◌, ◌≡◌, refl, inl, inr, arith,
}
use poly_cminus.Uses.{get_operand}
use poly_cminus.Uses.Consistent.{has_use}
use poly_cminus.Dominators.Run.{Fuel, Dominance, run_dominators}
use poly_cminus.Dominators.Search.{visit_block, visit_function}
use poly_cminus.Dominators.Iteration.{intersect, iterate}
use poly_cminus.Dominators.Frontier.{generate_dom_frontier, climb_frontier, is_dominator}
use poly_cminus.IrCheck.Values.{Module, Class, Kind, is_phi, is_instruction, is_basic_block}
use poly_cminus.IrCheck.Structure.{
  operands_of, terminator_operands, check_parent, check_phi_position, check_ret_br_position,
  check_terminate, check_pred_succ, check_pred_succ_br,
}
use poly_cminus.IrCheck.Checks.{
  all_users, check_entry, check_operand_exit, check_use_list, check_correct_phi, check_ssa,
  dominance_of, run,
}
use poly_cminus.IrCheck.Lists.{IsDistinct}
use poly_cminus.IrCheck.Positions.{IsLaidOut, check_positions-IsLaidOut}
use poly_cminus.IrCheck.Edges.{check_pred_succ-agrees, check_pred_succ_br-targets}
use poly_cminus.IrCheck.UseLists.{AreDistinct, of_instruction, check_use_list-get_operand}
use poly_cminus.IrCheck.Definitions.{EdgesWithin, ComesBefore, check_ssa-ComesBefore}

abbrev fuel : Fuel
fuel = record { depth = 4; climb = 4; rounds = 4 }

-- Function 9 has block 0 with the instructions 4 and 5, a branch to block 1, and block 1 with 6,
-- which uses 4, and 7, a return. 8 is a constant.
abbrev sample : Module
sample = record {
  globals = [];
  functions = 9 ∷ [];
  args = λ f. [];
  basic_blocks = lookup [] ((9, 0 ∷ 1 ∷ []) ∷ []);
  instructions = lookup [] ((0, 4 ∷ 5 ∷ []) ∷ (1, 6 ∷ 7 ∷ []) ∷ []);
  class_of = lookup Class.instruction (
      (0, Class.basic_block)
      ∷ (1, Class.basic_block)
      ∷ (8, Class.constant)
      ∷ (9, Class.function)
      ∷ []);
  kind = lookup Kind.other ((5, Kind.br) ∷ (7, Kind.ret) ∷ []);
  parent =
      lookup none
        ((0, some 9) ∷ (1, some 9) ∷ (4, some 0) ∷ (5, some 0) ∷ (6, some 1) ∷ (7, some 1) ∷ []);
  graph = record { pre = lookup [] ((1, 0 ∷ []) ∷ []); succ = lookup [] ((0, 1 ∷ []) ∷ []) };
  store = record {
    operands = lookup [] ((5, some 1 ∷ []) ∷ (6, some 4 ∷ some 8 ∷ []) ∷ []);
    use_list = lookup [] (
        (1, record { user = 5; arg_no = 0 } ∷ []) ∷ (4, record { user = 6; arg_no = 0 } ∷ []) ∷ []);
  };
}

run_example : run sample fuel ≡ true
unfolding run check_parent check_phi_position check_ret_br_position check_terminate check_pred_succ
    check_entry check_operand_exit check_use_list check_pred_succ_br check_correct_phi check_ssa
    dominance_of run_dominators visit_function visit_block iterate intersect generate_dom_frontier
    climb_frontier is_dominator
run_example = refl

phis_pass : check_phi_position sample ≡ true
unfolding check_phi_position
phis_pass = refl

ends_pass : check_ret_br_position sample ≡ true
unfolding check_ret_br_position
ends_pass = refl

terminators_pass : check_terminate sample ≡ true
unfolding check_terminate
terminators_pass = refl

edges_pass : check_pred_succ sample ≡ true
unfolding check_pred_succ
edges_pass = refl

branches_pass : check_pred_succ_br sample ≡ true
unfolding check_pred_succ_br
branches_pass = refl

uses_pass : check_use_list sample ≡ true
unfolding check_use_list
uses_pass = refl

ssa_passes : check_ssa sample fuel ≡ true
unfolding check_ssa dominance_of run_dominators visit_function visit_block iterate intersect
    generate_dom_frontier climb_frontier is_dominator
ssa_passes = refl

the_function : Memᴰ 9 sample.functions
the_function = Memᴰ.head refl

first_block : Memᴰ 0 (sample.basic_blocks 9)
first_block = Memᴰ.head refl

check_positions-IsLaidOut_example : IsLaidOut sample (sample.instructions 0)
check_positions-IsLaidOut_example =
    check_positions-IsLaidOut sample phis_pass ends_pass terminators_pass the_function first_block
      (refl, (refl, tt))

check_pred_succ-agrees_example :
    IsDistinct (sample.graph.pre 0)
    × IsDistinct (sample.graph.succ 0)
    × ((a : ℕ) → Memᴰ a (sample.graph.pre 0) → Memᴰ 0 (sample.graph.succ a))
    × ((a : ℕ) → Memᴰ a (sample.graph.succ 0) → Memᴰ 0 (sample.graph.pre a))
check_pred_succ-agrees_example = check_pred_succ-agrees sample edges_pass the_function first_block

check_pred_succ_br-targets_example :
    (os : List (Option ℕ)) × (terminator_operands sample 0 ≡ some os)
    × ((s : ℕ) → Memᴰ s (sample.graph.succ 0) → Memᴰ (some s) os)
    × ((s : ℕ)
        → Memᴰ (some s) os
        → is_basic_block (sample.class_of s) ≡ true
        → Memᴰ s (sample.graph.succ 0))
    × ((p : ℕ)
        → Memᴰ p (sample.graph.pre 0)
        → (os' : List (Option ℕ)) × (terminator_operands sample p ≡ some os') × Memᴰ (some 0) os')
check_pred_succ_br-targets_example =
    check_pred_succ_br-targets sample branches_pass the_function first_block

check_use_list-get_operand_example :
    AreDistinct (sample.store.use_list 4)
    × ((u i : ℕ)
        → has_use (sample.store.use_list 4) u i ≡ true
        → Memᴰ u (all_users sample) × (get_operand sample.store u i ≡ some 4))
check_use_list-get_operand_example =
    check_use_list-get_operand sample uses_pass
      (of_instruction the_function first_block (Memᴰ.head refl))

sample-EdgesWithin : EdgesWithin sample
sample-EdgesWithin zero = inl (9, the_function, Memᴰ.head refl)
sample-EdgesWithin (suc zero) = inl (9, the_function, Memᴰ.tail (Memᴰ.head refl))
sample-EdgesWithin (suc (suc b)) = inr (ground arith, ground arith)

check_ssa-ComesBefore_example :
    (d : Dominance) × (run_dominators fuel
        (record { blocks = sample.basic_blocks 9; graph = sample.graph })
      ≡ some d)
    × ((b i op : ℕ)
        → Memᴰ b d.func.blocks
        → Memᴰ i (sample.instructions b)
        → is_phi (sample.kind i) ≡ false
        → Memᴰ (some op) (operands_of sample i)
        → is_instruction (sample.class_of op) ≡ true
        → ComesBefore sample d 0 b i op)
check_ssa-ComesBefore_example =
    check_ssa-ComesBefore sample fuel edges_pass sample-EdgesWithin ssa_passes the_function
      (omega arith) refl
