-- ===== src/Sccp/Solver/Rises/Visits.antt =====
-- Each visit of an instruction only raises values, and only adds blocks and edges.
use poly_cminus.Prelude.{
  ℕ, ◌&&◌, ◌||◌, Bool, true, false, if◌then◌else◌, Option, none, some, ◌>>=◌, >>=-eq-some, ◌≡◌,
  refl, subst,
}
use poly_cminus.ConstFold.{CmpOp}
use poly_cminus.Sccp.Lattice.{Constant, constant, Lattice, is_unknown, is_constant, is_overdefined}
use poly_cminus.Sccp.Solver.{
  Operand, BinaryOp, Inst, phi, binary, cmp, fcmp, call, alloca, load, gep, ptrtoint, inttoptr,
  store, ret, other, br, cond_br, zext, fptosi, sitofp, Located, Program, Floats, State,
  get_value_state, mark_value_overdefined, mark_value_constant, mark_edge_executable,
}
use poly_cminus.Sccp.Solver.Visit.{
  eval_binary, eval_compare, merge_result, on_constants, folded_into, compared_into,
  overdefined_now, taken, both_taken, converted, visit_binary, visit_cmp, branch_target,
  visit_cond_br, extended_const, to_int_const, to_float_const, visit_cast, visit,
}
use poly_cminus.Sccp.Solver.Rises.{
  Rises, Rises-refl, Rises-trans, mark_value_overdefined-Rises, mergein_value-Rises,
  mark_value_constant-Rises, visit_phi-Rises, mark_edge_executable-Rises,
}

-- Whatever state the outcome is, it is risen.
abbrev pub RisesTo : State → Option State → Type 0
RisesTo s o = (s' : State) → o ≡ some s' → Rises s s'

some-injective : {x y : State} → some x ≡ some y → x ≡ y
some-injective e = cc

pub RisesTo-some : (s t : State) → Rises s t → RisesTo s (some t)
RisesTo-some s t h s' e = subst (Rises s) (some-injective e) h

pub RisesTo-bind :
    {A : Type 0} (s : State) (o : Option A) (f : A → Option State)
    → ((x : A) → o ≡ some x → RisesTo s (f x))
    → RisesTo s (o >>= f)
RisesTo-bind s o f h s' e = let (x, p, q) = >>=-eq-some o f e in h x p s' q

pub RisesTo-if :
    (s : State) (b : Bool) (o o' : Option State)
    → (b ≡ true → RisesTo s o)
    → (b ≡ false → RisesTo s o')
    → RisesTo s (if b then o else o')
RisesTo-if s true o o' h h' = h refl
RisesTo-if s false o o' h h' = h' refl

module _ (floats : Floats) (p : Program) where
  merge_result-Rises :
      (id : ℕ) (s : State) (result : Option Constant) → Rises s (merge_result floats p id s result)
  merge_result-Rises id s (some c) =
      mergein_value-Rises id (record { tag = constant; val = some c }) s
  merge_result-Rises id s none = mark_value_overdefined-Rises id s

  marked : (id : ℕ) (s : State) → RisesTo s (some (mark_value_overdefined id s))
  marked id s = RisesTo-some s (mark_value_overdefined id s) (mark_value_overdefined-Rises id s)

  unmoved : (s : State) → RisesTo s (some s)
  unmoved s = RisesTo-some s s (Rises-refl s)

  on_constants-RisesTo :
      (s : State) (llat rlat : Lattice) (f : Constant → Constant → Option State) (o : Option State)
      → ((c d : Constant) → RisesTo s (f c d))
      → RisesTo s o
      → RisesTo s (on_constants floats p llat rlat f o)
  unfolding on_constants
  on_constants-RisesTo s llat rlat f o h h' =
      RisesTo-if s (is_constant llat.tag && is_constant rlat.tag)
        (llat.val >>= λ c. rlat.val >>= λ d. f c d) o
        (λ _.
          RisesTo-bind s llat.val (λ c. rlat.val >>= λ d. f c d)
            (λ c _. RisesTo-bind s rlat.val (λ d. f c d) (λ d _. h c d)))
        (λ _. h')

  folded_into-RisesTo :
      (id : ℕ) (op : BinaryOp) (s : State) (c d : Constant)
      → RisesTo s (folded_into floats p id op s c d)
  folded_into-RisesTo id op s c d =
      RisesTo-bind s (eval_binary floats op c d)
        (λ result. some (merge_result floats p id s result))
        (λ result _.
          RisesTo-some s (merge_result floats p id s result) (merge_result-Rises id s result))

  compared_into-RisesTo :
      (id : ℕ) (op : CmpOp) (s : State) (c d : Constant)
      → RisesTo s (compared_into floats p id op s c d)
  compared_into-RisesTo id op s c d =
      let result = some (eval_compare floats op c d) in
      RisesTo-some s (merge_result floats p id s result) (merge_result-Rises id s result)

  visit_binary-RisesTo :
      (id : ℕ) (op : BinaryOp) (lhs rhs : Operand) (s : State)
      → RisesTo s (visit_binary floats p id op lhs rhs s)
  unfolding visit_binary
  visit_binary-RisesTo id op lhs rhs s =
      let l = get_value_state s lhs in
      let r = get_value_state s rhs in
      let merged =
        on_constants floats p l r (folded_into floats p id op s) (overdefined_now floats p id s) in
      let both = is_overdefined l.tag && is_overdefined r.tag in
      RisesTo-if s (is_overdefined (s.value_state id).tag || (is_unknown l.tag || is_unknown r.tag))
        (some s) (if both then overdefined_now floats p id s else merged) (λ _. unmoved s)
        (λ _.
          RisesTo-if s both (overdefined_now floats p id s) merged (λ _. marked id s)
            (λ _.
              on_constants-RisesTo s l r (folded_into floats p id op s)
                (overdefined_now floats p id s) (folded_into-RisesTo id op s) (marked id s)))

  visit_cmp-RisesTo :
      (id : ℕ) (op : CmpOp) (lhs rhs : Operand) (s : State)
      → RisesTo s (visit_cmp floats p id op lhs rhs s)
  unfolding visit_cmp
  visit_cmp-RisesTo id op lhs rhs s =
      let l = get_value_state s lhs in
      let r = get_value_state s rhs in
      let merged =
        on_constants floats p l r (compared_into floats p id op s)
          (overdefined_now floats p id s) in
      let early = is_unknown l.tag || is_unknown r.tag in
      RisesTo-if s (is_overdefined (s.value_state id).tag) (overdefined_now floats p id s)
        (if early then some s else merged) (λ _. marked id s)
        (λ _.
          RisesTo-if s early (some s) merged (λ _. unmoved s)
            (λ _.
              on_constants-RisesTo s l r (compared_into floats p id op s)
                (overdefined_now floats p id s) (compared_into-RisesTo id op s) (marked id s)))

  taken-RisesTo :
      (parent to to' : ℕ) (s : State) (c : Constant) → RisesTo s (taken floats p parent to to' s c)
  taken-RisesTo parent to to' s c =
      RisesTo-bind s (branch_target floats p to to' c)
        (λ target. some (mark_edge_executable p parent target s))
        (λ target _.
          RisesTo-some s (mark_edge_executable p parent target s)
            (mark_edge_executable-Rises p parent target s))

  visit_cond_br-RisesTo :
      (parent : ℕ) (cond : Operand) (to to' : ℕ) (s : State)
      → RisesTo s (visit_cond_br floats p parent cond to to' s)
  unfolding visit_cond_br
  visit_cond_br-RisesTo parent cond to to' s =
      let lat = get_value_state s cond in
      let both = both_taken floats p parent to to' s in
      let once = mark_edge_executable p parent to s in
      RisesTo-if s (is_constant lat.tag) (lat.val >>= taken floats p parent to to' s)
        (if is_overdefined lat.tag then some both else some s)
        (λ _.
          RisesTo-bind s lat.val (taken floats p parent to to' s)
            (λ c _. taken-RisesTo parent to to' s c))
        (λ _.
          RisesTo-if s (is_overdefined lat.tag) (some both) (some s)
            (λ _. RisesTo-some s both (
              Rises-trans s once both (mark_edge_executable-Rises p parent to s)
                (mark_edge_executable-Rises p parent to' once)))
            (λ _. unmoved s))

  -- The look at the present element is what keeps `mark_constant` from lowering it.
  visit_cast-RisesTo :
      (id : ℕ) (op : Operand) (convert : Constant → Option Constant) (s : State)
      → RisesTo s (visit_cast floats p id op convert s)
  unfolding visit_cast
  visit_cast-RisesTo id op convert s =
      let lat = get_value_state s op in
      let early = is_overdefined (s.value_state id).tag || is_unknown lat.tag in
      let last = lat.val >>= converted floats p id convert s in
      RisesTo-if s early (some s)
        (if is_overdefined lat.tag then overdefined_now floats p id s else last) (λ _. unmoved s)
        (λ looked.
          RisesTo-if s (is_overdefined lat.tag) (overdefined_now floats p id s) last
            (λ _. marked id s)
            (λ _. RisesTo-bind s lat.val (converted floats p id convert s) (λ c _.
              RisesTo-bind s (convert c) (λ d. mark_value_constant id d s)
                (λ d _. λ s' e.
                  mark_value_constant-Rises id d s s'
                    (left_false (is_overdefined (s.value_state id).tag) (is_unknown lat.tag) looked)
                    e))))
    where
      left_false : (a b : Bool) → (a || b) ≡ false → a ≡ false
      left_false true b h = cc
      left_false false b h = refl

  pub visit-RisesTo : (i : Located) (s : State) → RisesTo s (visit floats p i s)
  unfolding visit
  visit-RisesTo i s = by_inst (i.inst)
    where
      by_inst :
          (inst : Inst)
          → RisesTo s (visit floats p (record { id = i.id; parent = i.parent; inst = inst }) s)
      by_inst (phi incoming) = RisesTo-some s _ (visit_phi-Rises i.id i.parent incoming s)
      by_inst (binary op lhs rhs) = visit_binary-RisesTo i.id op lhs rhs s
      by_inst (cmp op lhs rhs) = visit_cmp-RisesTo i.id op lhs rhs s
      by_inst (fcmp op lhs rhs) = visit_cmp-RisesTo i.id op lhs rhs s
      by_inst call = marked i.id s
      by_inst alloca = marked i.id s
      by_inst load = marked i.id s
      by_inst gep = marked i.id s
      by_inst ptrtoint = marked i.id s
      by_inst inttoptr = marked i.id s
      by_inst store = unmoved s
      by_inst ret = unmoved s
      by_inst other = λ s' e. cc
      by_inst (br to) = RisesTo-some s _ (mark_edge_executable-Rises p i.parent to s)
      by_inst (cond_br c to to') = visit_cond_br-RisesTo i.parent c to to' s
      by_inst (zext size op) = visit_cast-RisesTo i.id op (extended_const floats p size) s
      by_inst (fptosi op) = visit_cast-RisesTo i.id op (to_int_const floats p) s
      by_inst (sitofp op) = visit_cast-RisesTo i.id op (to_float_const floats p) s
