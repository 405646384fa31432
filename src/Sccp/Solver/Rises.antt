-- ===== src/Sccp/Solver/Rises.antt =====
-- The solver only raises values, and only adds executable blocks and edges.
pub mod Visits
pub mod Solves
use poly_cminus.Prelude.{
  ℕ, zero, suc, ◌==◌, ◌&&◌, ◌||◌, Bool, true, false, if◌then◌else◌, Bool-cases, inl, inr, Option,
  none, some, ◌>>=◌, >>=-eq-some, List, [], ◌∷◌, ◌++◌, ◌≡◌, ◌≢◌, refl, sym, ap, ◌∙◌, subst, ==→eq,
  arith,
}
use poly_cminus.Sccp.Lattice.{
  Constant, LatticeType, unknown, constant, overdefined, Lattice, is_unknown, is_constant,
  is_overdefined, Marked, mark_overdefined, mark_constant, mergein, same_val,
}
use poly_cminus.Sccp.Lattice.Order.{
  ◌⊑◌, bottom, top, same, ⊑-refl, ⊑-trans, mergein-join, same_val-eq,
}
use poly_cminus.Sccp.Solver.{
  Operand, Inst, phi, Located, Program, State, contains, contains_edge, set_state, push_to_worklist,
  store_marked, mark_value_overdefined, mark_value_constant, mergein_value, merge_incoming,
  visit_phi, visit_phis, mark_block_executable, mark_edge_executable,
}

pub record Rises (s s' : State) : Type 0 where
  pub values : (v : ℕ) → s.value_state v ⊑ s'.value_state v
  pub blocks : (b : ℕ) → contains s.bb_executable b ≡ true → contains s'.bb_executable b ≡ true
  pub edges :
      (x y : ℕ)
      → contains_edge s.executable_edges x y ≡ true
      → contains_edge s'.executable_edges x y ≡ true

pub Rises-refl : (s : State) → Rises s s
Rises-refl s = record {
  values = λ v. ⊑-refl (s.value_state v);
  blocks = λ b h. h;
  edges = λ x y h. h;
}

pub Rises-trans : (s t u : State) → Rises s t → Rises t u → Rises s u
Rises-trans s t u p q = record {
  values =
      λ v. ⊑-trans (s.value_state v) (t.value_state v) (u.value_state v) (p.values v) (q.values v);
  blocks = λ b h. q.blocks b (p.blocks b h);
  edges = λ x y h. q.edges x y (p.edges x y h);
}

set_state-⊑ :
    (f : ℕ → Lattice) (v : ℕ) (lat : Lattice) → f v ⊑ lat → (x : ℕ) → f x ⊑ set_state f v lat x
set_state-⊑ f v lat h x = elim (Bool-cases (x == v)) [
  | inl p ↦ rw p (rw (==→eq x v p) h)
  | inr p ↦ rw p (⊑-refl (f x))
]

-- Pushing changes the worklists only.
push-Rises : (lat : Lattice) (v : ℕ) (s t : State) → Rises s t → Rises s (push_to_worklist lat v t)
unfolding push_to_worklist
push-Rises lat v s t h = elim (Bool-cases (is_overdefined lat.tag)) [
  | inl p ↦ rw p (record { values = h.values; blocks = h.blocks; edges = h.edges })
  | inr p ↦ rw p (record { values = h.values; blocks = h.blocks; edges = h.edges })
]

store_marked-Rises :
    (v : ℕ) (m : Marked) (s : State) → s.value_state v ⊑ m.now → Rises s (store_marked v m s)
store_marked-Rises v m s h = elim (Bool-cases m.changed) [
  | inl p ↦ rw p (
      push-Rises m.now v s (record s { value_state = set_state s.value_state v m.now })
        (record {
          values = set_state-⊑ s.value_state v m.now h;
          blocks = λ b q. q;
          edges = λ x y q. q;
        }))
  | inr p ↦ rw p (Rises-refl s)
]

mark_overdefined-⊑ : (lat : Lattice) → lat ⊑ (mark_overdefined lat).now
mark_overdefined-⊑ lat = elim (Bool-cases (is_overdefined lat.tag)) [
  | inl p ↦ rw p (⊑-refl lat)
  | inr p ↦ rw p (top refl)
]

pub mark_value_overdefined-Rises : (v : ℕ) (s : State) → Rises s (mark_value_overdefined v s)
unfolding mark_value_overdefined
mark_value_overdefined-Rises v s =
    store_marked-Rises v (mark_overdefined (s.value_state v)) s
      (mark_overdefined-⊑ (s.value_state v))

pub mergein_value-Rises : (v : ℕ) (lat : Lattice) (s : State) → Rises s (mergein_value v lat s)
unfolding mergein_value
mergein_value-Rises v lat s =
    store_marked-Rises v (mergein (s.value_state v) lat) s (mergein-join (s.value_state v) lat).0

-- Marking a constant lowers an overdefined element; its callers look first.
mark_constant-⊑ :
    (c : Constant) (t : LatticeType) (u : Option Constant) (m : Marked)
    → is_overdefined t ≡ false
    → mark_constant c (record { tag = t; val = u }) ≡ some m
    → record { tag = t; val = u } ⊑ m.now
mark_constant-⊑ c unknown u m h e = bottom refl
mark_constant-⊑ c constant u m h e = elim (Bool-cases (same_val (some c) u)) [
  | inl p ↦
      let e' : some (record { changed = false; now = record { tag = constant; val = u } })
          ≡ some m =
        rw p at e in
      subst (λ (m : Marked). record { tag = constant; val = u } ⊑ m.now) (some-injective e')
        (same refl refl)
  | inr p ↦ let e' : none ≡ some m = rw p at e in cc
]
  where
    some-injective : {x y : Marked} → some x ≡ some y → x ≡ y
    some-injective e = cc
mark_constant-⊑ c overdefined u m h e = cc

pub mark_value_constant-Rises :
    (v : ℕ) (c : Constant) (s s' : State)
    → is_overdefined (s.value_state v).tag ≡ false
    → mark_value_constant v c s ≡ some s'
    → Rises s s'
unfolding mark_value_constant
mark_value_constant-Rises v c s s' h e =
    let (m, p, q) =
      >>=-eq-some (mark_constant c (s.value_state v)) (λ m. some (store_marked v m s)) e in
    let le = mark_constant-⊑ c (s.value_state v).tag (s.value_state v).val m h p in
    subst (Rises s) (some-injective q) (store_marked-Rises v m s le)
  where
    some-injective : {x y : State} → some x ≡ some y → x ≡ y
    some-injective e = cc

pub visit_phi-Rises :
    (id parent : ℕ) (incoming : List (Operand × ℕ)) (s : State)
    → Rises s (visit_phi id parent incoming s)
unfolding visit_phi
visit_phi-Rises id parent incoming s = elim (Bool-cases (is_overdefined (s.value_state id).tag)) [
  | inl p ↦ rw p (Rises-refl s)
  | inr p ↦ rw p (mergein_value-Rises id (merge_incoming s parent (s.value_state id) incoming) s)
]

visit_phis-Rises : (is : List Located) (s : State) → Rises s (visit_phis is s)
visit_phis-Rises [] s = Rises-refl s
visit_phis-Rises (i ∷ is) s = by_inst (λ t. visit_phis-Rises is t) (i.inst)
  where
    by_inst :
        ((t : State) → Rises t (visit_phis is t))
        → (inst : Inst)
        → Rises s (elim inst as (λ x. State) [
          | phi incoming ↦ visit_phis is (visit_phi i.id i.parent incoming s)
          | _ ↦ s
        ])
    by_inst rest (phi incoming) =
        Rises-trans s (visit_phi i.id i.parent incoming s) _
          (visit_phi-Rises i.id i.parent incoming s) (rest (visit_phi i.id i.parent incoming s))
    by_inst rest inst = Rises-refl s

mark_block_executable-Rises : (bb : ℕ) (s : State) → Rises s (mark_block_executable bb s)
unfolding mark_block_executable
mark_block_executable-Rises bb s = elim (Bool-cases (contains s.bb_executable bb)) [
  | inl p ↦ rw p (Rises-refl s)
  | inr p ↦ rw p (record {
    values = λ v. ⊑-refl (s.value_state v);
    blocks = λ b h. rw h (ground arith);
    edges = λ x y h. h;
  })
]

pub mark_edge_executable-Rises :
    (p : Program) (from to : ℕ) (s : State) → Rises s (mark_edge_executable p from to s)
unfolding mark_edge_executable
mark_edge_executable-Rises p from to s =
    elim (Bool-cases (contains_edge s.executable_edges from to)) [
      | inl e ↦ rw e (Rises-refl s)
      | inr e ↦
          let s' = record s { executable_edges = (from, to) ∷ s.executable_edges } in
          let added : Rises s s' = record {
            values = λ v. ⊑-refl (s.value_state v);
            blocks = λ b h. h;
            edges = λ x y h. rw h (ground arith);
          } in
          elim (Bool-cases (contains s.bb_executable to)) [
            | inl q ↦ rw (e, q) (Rises-trans s s' _ added (visit_phis-Rises (p.instructions to) s'))
            | inr q ↦ rw (e, q) (Rises-trans s s' _ added (mark_block_executable-Rises to s'))
          ]
    ]
