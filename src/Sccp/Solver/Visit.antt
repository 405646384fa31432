-- ===== src/Sccp/Solver/Visit.antt =====
-- SCCPSolver::visit, one function for each kind of instruction.
use poly_cminus.Prelude.{ℕ, zero, suc, ◌==◌, ◌&&◌, ◌||◌, if◌then◌else◌, Option, none, some, ◌>>=◌}
use poly_cminus.Ir.{i1, i32, i64}
use poly_cminus.ConstFold.{fold_int, result_type, CmpOp, compare_int}
use poly_cminus.Sccp.Lattice.{
  Constant, int_const, fp_const, constant, Lattice, is_unknown, is_constant, is_overdefined,
}
use poly_cminus.Sccp.Solver.{
  Operand, BinaryOp, int_op, float_op, phi, binary, cmp, fcmp, call, alloca, load, gep, ptrtoint,
  inttoptr, store, ret, other, br, cond_br, zext, fptosi, sitofp, Located, Program, Floats, State,
  get_value_state, mark_value_overdefined, mark_value_constant, mergein_value, visit_phi,
  mark_edge_executable,
}

-- `ConstFold::eval` on two constants: `some none` is a null pointer.
abbrev pub eval_binary : Floats → BinaryOp → Constant → Constant → Option (Option Constant)
eval_binary floats (int_op op) (int_const t l) (int_const u r) =
    fold_int op l r >>= λ x. some (some (int_const (result_type t) x))
eval_binary floats (int_op op) (fp_const l) (fp_const r) = none
eval_binary floats (float_op op) (fp_const l) (fp_const r) =
    some (some (fp_const (floats.fold op l r)))
eval_binary floats (float_op op) (int_const t l) (int_const u r) = none
eval_binary floats op c d = some none

abbrev pub eval_compare : Floats → CmpOp → Constant → Constant → Constant
eval_compare floats op (int_const t l) (int_const u r) =
    int_const i1 (if compare_int op l r then 1 else 0)
eval_compare floats op c d = int_const i1 (if floats.compare op c d then 1 else 0)

module _ (floats : Floats) (p : Program) where
  abbrev pub merge_result : ℕ → State → Option Constant → State
  merge_result id s (some c) = mergein_value id (record { tag = constant; val = some c }) s
  merge_result id s none = mark_value_overdefined id s

  -- What is done with two constant operands; with one, the other stands for itself, and `eval`
  -- returns null.
  unfoldable pub on_constants :
      Lattice → Lattice → (Constant → Constant → Option State) → Option State → Option State
  on_constants llat rlat f otherwise =
      if is_constant llat.tag && is_constant rlat.tag
      then (llat.val >>= λ c. rlat.val >>= λ d. f c d)
      else otherwise

  abbrev pub folded_into : ℕ → BinaryOp → State → Constant → Constant → Option State
  folded_into id op s c d = eval_binary floats op c d >>= λ result. some (merge_result id s result)

  abbrev pub compared_into : ℕ → CmpOp → State → Constant → Constant → Option State
  compared_into id op s c d = some (merge_result id s (some (eval_compare floats op c d)))

  abbrev pub overdefined_now : ℕ → State → Option State
  overdefined_now id s = some (mark_value_overdefined id s)

  unfoldable pub visit_binary : ℕ → BinaryOp → Operand → Operand → State → Option State
  visit_binary id op lhs rhs s =
      let llat = get_value_state s lhs in
      let rlat = get_value_state s rhs in
      if is_overdefined (s.value_state id).tag || (is_unknown llat.tag || is_unknown rlat.tag)
      then some s
      else if is_overdefined llat.tag && is_overdefined rlat.tag
      then overdefined_now id s
      else on_constants llat rlat (folded_into id op s) (overdefined_now id s)

  -- `visit_cmp` and `visit_fcmp`, which are the same.
  unfoldable pub visit_cmp : ℕ → CmpOp → Operand → Operand → State → Option State
  visit_cmp id op lhs rhs s =
      let llat = get_value_state s lhs in
      let rlat = get_value_state s rhs in
      if is_overdefined (s.value_state id).tag
      then overdefined_now id s
      else if is_unknown llat.tag || is_unknown rlat.tag
      then some s
      else on_constants llat rlat (compared_into id op s) (overdefined_now id s)

  abbrev pub branch_target : ℕ → ℕ → Constant → Option ℕ
  branch_target if_true if_false (int_const t zero) = some if_false
  branch_target if_true if_false (int_const t (suc c)) = some if_true
  branch_target if_true if_false (fp_const c) = none

  abbrev pub taken : ℕ → ℕ → ℕ → State → Constant → Option State
  taken parent if_true if_false s c =
      branch_target if_true if_false c >>= λ to. some (mark_edge_executable p parent to s)

  abbrev pub both_taken : ℕ → ℕ → ℕ → State → State
  both_taken parent if_true if_false s =
      mark_edge_executable p parent if_false (mark_edge_executable p parent if_true s)

  -- The conditional branch; at an unknown condition nothing is done.
  unfoldable pub visit_cond_br : ℕ → Operand → ℕ → ℕ → State → Option State
  visit_cond_br parent cond if_true if_false s =
      let lat = get_value_state s cond in
      if is_constant lat.tag
      then lat.val >>= taken parent if_true if_false s
      else if is_overdefined lat.tag
      then some (both_taken parent if_true if_false s)
      else some s

  abbrev pub extended_const : ℕ → Constant → Option Constant
  extended_const size (int_const t c) =
      if size == 1
      then some (int_const i1 (if c == 0 then 0 else 1))
      else if size == 4
      then some (int_const i32 c)
      else if size == 8
      then some (int_const i64 c)
      else none
  extended_const size (fp_const c) = none

  abbrev pub to_int_const : Constant → Option Constant
  to_int_const (fp_const c) = some (int_const i32 (floats.to_int c))
  to_int_const (int_const t c) = none

  abbrev pub to_float_const : Constant → Option Constant
  to_float_const (int_const t c) = some (fp_const (floats.of_int c))
  to_float_const (fp_const c) = none

  abbrev pub converted : ℕ → (Constant → Option Constant) → State → Constant → Option State
  converted id convert s c = convert c >>= λ d. mark_value_constant id d s

  -- The common body of `visit_zext`, `visit_fptosi` and `visit_sitofp`.
  unfoldable pub visit_cast : ℕ → Operand → (Constant → Option Constant) → State → Option State
  visit_cast id op convert s =
      let op_lat = get_value_state s op in
      if is_overdefined (s.value_state id).tag || is_unknown op_lat.tag
      then some s
      else if is_overdefined op_lat.tag
      then overdefined_now id s
      else (op_lat.val >>= converted id convert s)

  unfoldable pub visit : Located → State → Option State
  visit i s = elim (i.inst) [
    | phi incoming ↦ some (visit_phi i.id i.parent incoming s)
    | binary op lhs rhs ↦ visit_binary i.id op lhs rhs s
    | cmp op lhs rhs ↦ visit_cmp i.id op lhs rhs s
    | fcmp op lhs rhs ↦ visit_cmp i.id op lhs rhs s
    | call ↦ some (mark_value_overdefined i.id s)
    | alloca ↦ some (mark_value_overdefined i.id s)
    | load ↦ some (mark_value_overdefined i.id s)
    | gep ↦ some (mark_value_overdefined i.id s)
    | ptrtoint ↦ some (mark_value_overdefined i.id s)
    | inttoptr ↦ some (mark_value_overdefined i.id s)
    | store ↦ some s
    | ret ↦ some s
    | other ↦ none
    | br to ↦ some (mark_edge_executable p i.parent to s)
    | cond_br c to to' ↦ visit_cond_br i.parent c to to' s
    | zext size op ↦ visit_cast i.id op (extended_const size) s
    | fptosi op ↦ visit_cast i.id op to_int_const s
    | sitofp op ↦ visit_cast i.id op to_float_const s
  ]
