-- ===== src/IrCheck/Definitions.antt =====
-- What the checks of operands and of the SSA form in src/Optimize/IRCheck.cc establish.
use mathlib.Core.List.{Memᴰ}
use mathlib.Core.List.Memᴰ
use poly_cminus.Prelude.{
  ℕ, ◌<◌, ◌==◌, length, Bool, true, false, Bool-cases, inl, inr, ◌⊎◌, Option, none, some, [], ◌≡◌,
  refl, ap, ==→eq, ltb→lt, lt→ltb, subst,
}
use poly_cminus.Dominators.Search.{Func}
use poly_cminus.Dominators.Run.{Fuel, Dominance, run_dominators, get_entry_block}
use poly_cminus.Dominators.Frontier.{is_dominator}
use poly_cminus.Dominators.Walks.{Dominates}
use poly_cminus.Dominators.Sound.{AgreeEdges, run_dominators-Dominates}
use poly_cminus.IrCheck.Values.{Module, every, is_phi, is_instruction, distance}
use poly_cminus.IrCheck.Structure.{operands_of, check_pred_succ}
use poly_cminus.IrCheck.Checks.{
  dominance_of, says, defined_before, dominates_use, uses_dominated, function_dominated, check_ssa,
}
use poly_cminus.IrCheck.Lists.{every-Memᴰ}
use poly_cminus.IrCheck.Edges.{check_pred_succ-agrees}

module _ (m : Module) where
  -- Only blocks of functions have edges.
  abbrev pub EdgesWithin : Type 0
  EdgesWithin =
      (b : ℕ)
      → ((f : ℕ) × Memᴰ f m.functions × Memᴰ b (m.basic_blocks f))
        ⊎ ((m.graph.pre b ≡ []) × (m.graph.succ b ≡ []))

  check_pred_succ-AgreeEdges : check_pred_succ m ≡ true → EdgesWithin → AgreeEdges m.graph
  check_pred_succ-AgreeEdges e within a b = (
    λ n. elim (within b) [
      | inl (f, mf, mb) ↦ (check_pred_succ-agrees m e mf mb).2 a n
      | inr (none_before, _) ↦ absurd (Memᴰ.not-nil (subst (Memᴰ a) none_before n))
    ],
    λ n. elim (within a) [
      | inl (f, mf, ma) ↦ (check_pred_succ-agrees m e mf ma).3 b n
      | inr (_, none_after) ↦ absurd (Memᴰ.not-nil (subst (Memᴰ b) none_after n))
    ],
  )

  -- The definition of the operand stands earlier in the block, or in a block on every walk to it.
  abbrev pub ComesBefore : Dominance → ℕ → ℕ → ℕ → ℕ → Type 0
  ComesBefore d root b i op =
      (op_bb : ℕ) × (m.parent op ≡ some op_bb)
      × (((op_bb ≡ b) × (distance (m.instructions b) op < distance (m.instructions b) i))
          ⊎ Dominates d.func.graph.pre root op_bb b)

  says-true : (o : Option Bool) → says m o ≡ true → o ≡ some true
  says-true none e = cc
  says-true (some b) e = ap some e

  defined_before-ComesBefore :
      (climb : ℕ) (d : Dominance) (root b i op : ℕ) (o : Option ℕ)
      → m.parent op ≡ o
      → ((p : ℕ) → is_dominator climb d.idom b p ≡ some true → Dominates d.func.graph.pre root p b)
      → defined_before m climb d b i op o ≡ true
      → ComesBefore d root b i op
  defined_before-ComesBefore climb d root b i op none at sound e = cc
  defined_before-ComesBefore climb d root b i op (some op_bb) at sound e =
      elim (Bool-cases (op_bb == b)) [
        | inl same ↦ (op_bb, at, inl (==→eq op_bb b same, ltb→lt _ _ (rw same at e)))
        | inr differs ↦ (op_bb, at, inr (sound op_bb (says-true _ (rw differs at e))))
      ]

  uses_dominated-ComesBefore :
      (climb : ℕ) (d : Dominance) (root b i op : ℕ)
      → ((p : ℕ) → is_dominator climb d.idom b p ≡ some true → Dominates d.func.graph.pre root p b)
      → uses_dominated m climb d b i ≡ true
      → is_phi (m.kind i) ≡ false
      → Memᴰ (some op) (operands_of m i)
      → is_instruction (m.class_of op) ≡ true
      → ComesBefore d root b i op
  uses_dominated-ComesBefore climb d root b i op sound e no_phi n inst =
      let all : every (dominates_use m climb d b i) (operands_of m i) ≡ true = rw no_phi at e in
      let own = every-Memᴰ (dominates_use m climb d b i) (operands_of m i) all n in
      defined_before-ComesBefore climb d root b i op (m.parent op) refl sound (rw inst at own)

  function_dominated-some :
      (climb : ℕ) (o : Option Dominance)
      → function_dominated m climb o ≡ true
      → (d : Dominance) × (o ≡ some d)
        × (every (λ b. every (uses_dominated m climb d b) (m.instructions b)) d.func.blocks ≡ true)
  function_dominated-some climb none e = cc
  function_dominated-some climb (some d) e = (d, refl, e)

  -- Where check_pred_succ and check_ssa pass and only blocks of functions have edges, the
  -- dominators of every function of two blocks or more are found, and in each block that they leave
  -- an operand of an instruction other than a phi that is an instruction itself stands earlier in
  -- the block, or in a block that every walk from the entry to this one passes.
  pub check_ssa-ComesBefore :
      (fuel : Fuel) {f root : ℕ}
      → check_pred_succ m ≡ true
      → EdgesWithin
      → check_ssa m fuel ≡ true
      → Memᴰ f m.functions
      → 1 < length (m.basic_blocks f)
      → get_entry_block (record { blocks = m.basic_blocks f; graph = m.graph }) ≡ some root
      → (d : Dominance) × (run_dominators fuel
            (record { blocks = m.basic_blocks f; graph = m.graph })
          ≡ some d)
        × ((b i op : ℕ)
            → Memᴰ b d.func.blocks
            → Memᴰ i (m.instructions b)
            → is_phi (m.kind i) ≡ false
            → Memᴰ (some op) (operands_of m i)
            → is_instruction (m.class_of op) ≡ true
            → ComesBefore d root b i op)
  unfolding check_ssa dominance_of
  check_ssa-ComesBefore fuel {f} {root} agree within e mf big entry =
      let func : Func = record { blocks = m.basic_blocks f; graph = m.graph } in
      let own =
        every-Memᴰ (λ f. function_dominated m fuel.climb (dominance_of m fuel f)) m.functions e
          mf in
      let (d, found, all) = function_dominated-some fuel.climb (dominance_of m fuel f) own in
      let ran : run_dominators fuel func ≡ some d =
        rw (lt→ltb 1 (length (m.basic_blocks f)) big) at found in
      let sound =
        run_dominators-Dominates fuel func root d (check_pred_succ-AgreeEdges agree within) entry
          ran in
      (
        d,
        ran,
        λ b i op mb mi no_phi n inst.
            uses_dominated-ComesBefore fuel.climb d root b i op (λ p. (sound b p).1 fuel.climb)
              (every-Memᴰ (uses_dominated m fuel.climb d b) (m.instructions b)
                (every-Memᴰ _ d.func.blocks all mb) mi)
              no_phi n inst,
      )
