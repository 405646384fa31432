-- ===== src/Ir/Simulation/Block.antt =====
-- The loop over a block returns, and the new block does to the world what the old one does.
use poly_cminus.Prelude.{
  ℕ, suc, ◌+◌, ◌≤◌, ◌<◌, ◌≡◌, refl, sym, ap, ◌∙◌, inl, inr, Bool, true, false, Option, none, some,
  List, [], ◌∷◌, ◌++◌, map, All, arith, length,
}
use poly_cminus.Ir.{OpId, IntTy, Value, Inst, binary, other, ref, Replacements, replaced}
use poly_cminus.Ir.Exec.{Env, External, update, exec, exec_inst}
use poly_cminus.Ir.Rewrite.{
  Rule, Rewrite, Rewritten, unchanged, keeping, looked_at, run_block, prepend,
}
use poly_cminus.Ir.Simulation.{Below, IsSettled, IsShaped, IsSoundRule, IsNumbered, Simulates}
use poly_cminus.Ir.Simulation.Contract.{unchanged-IsShaped, unchanged-Preserves}
use poly_cminus.Ir.Simulation.Operands.{
  InRange-mono, map-value_of-replaced, Below-mono, All-Below-mono, replaced-V, Origin-InRange,
}
use poly_cminus.Ir.Simulation.Head.{OnValues, range_a, range_b, head, exec-cons, exec_inst-other}
use poly_cminus.Ir.Simulation.Steps.{
  exec-append, IsSettled-plain, IsSettled-replaced, Agree-plain, Agree-replaced,
}

IsSettled-next :
    (V : Value → Type 0) (n k next next' : ℕ) (rs : Replacements)
    → next ≤ next'
    → IsSettled V n k next rs
    → IsSettled V n k next' rs
IsSettled-next V n k next next' rs p settled x h = (
  (settled x h).0,
  elim ((settled x h).1) [
    | inl same ↦ inl same
    | inr (xk, r) ↦ inr (xk, InRange-mono n k next k next' (replaced rs (ref x)) (omega arith) p r)
  ],
)

module _ {W : Type 0} (ext : External W) (T : OpId → IntTy → Type 0) (V : Value → Type 0) where
  looked_at-IsSoundRule :
      (rule : Rule) (skip : Bool)
      → IsSoundRule ext T V rule
      → IsSoundRule ext T V (looked_at rule skip)
  looked_at-IsSoundRule rule true sound next op t a b ht ha hb = (
    unchanged,
    refl,
    unchanged-IsShaped V next a b,
    λ e x pa pb h. unchanged-Preserves ext next e x,
  )
  looked_at-IsSoundRule rule false sound next op t a b ht ha hb = sound next op t a b ht ha hb

  abbrev Outcome : Rule → ℕ → Bool → Replacements → ℕ → List Inst → Type 0
  Outcome rule n skip rs next is =
      (res : Rewritten) × (run_block rule skip rs next is ≡ some res) × Simulates ext n rs is res

  exec-nil :
      (e : Env) (w : W) (e₁ : Env) (w₁ : W) → exec ext [] e w ≡ some (e₁, w₁) → (e ≡ e₁) × (w ≡ w₁)
  unfolding exec
  exec-nil e w e₁ w₁ h = (cc, cc)

  module _ (rule : Rule) (n : ℕ) where
    run_block-other :
        (d kind : ℕ) (args : List Value) (is : List Inst) (skip : Bool) (rs : Replacements)
        (next k : ℕ)
        → n ≤ next
        → k ≤ d
        → d < n
        → All (Below d) args
        → IsSettled V n k next rs
        → Outcome rule n false rs next is
        → Outcome rule n skip rs next (other d kind args ∷ is)
    unfolding run_block
    run_block-other d kind args is skip rs next k g kd dn below settled (res, eq, sim) = (
      prepend (other d kind (map (replaced rs) args) ∷ []) res,
      rw eq,
      λ e e' w w₁ e₁ agree h.
          let (r, p, q) = exec-cons ext (other d kind args) is e w (e₁, w₁) h in
          let (z, p', pr) = exec_inst-other ext d kind args e w r p in
          let q' : exec ext is (update e d z.0) z.1 ≡ some (e₁, w₁) = rw pr at q in
          let same =
            map-value_of-replaced n rs e e' agree args
              (All-Below-mono d n args (omega arith) below) in
          let agree' =
            Agree-plain V n k next d rs settled kd dn e e' agree z.0 g (update e' d z.0)
              (λ y yn yd. ground arith) (ground arith) in
          let (e₂, run, last) = sim (update e d z.0) (update e' d z.0) z.1 w₁ e₁ agree' q' in
          (e₂, unfold exec exec_inst in rw (same, p') run, last),
    )

    module _ (d : ℕ) (op : OpId) (t : IntTy) (a b : Value) (is : List Inst) (skip : Bool)
        (rs : Replacements) (next k : ℕ) (g : n ≤ next) (kd : k ≤ d) (dn : d < n) (ba : Below d a)
        (bb : Below d b) (settled : IsSettled V n k next rs) where
      run_block-binary :
          (em : List Inst) (nv : Option Value) (kept skips : Bool)
          → let r : Rewrite = record { emitted = em; new_val = nv; kept = kept; skips = skips } in
            looked_at rule skip next op t (replaced rs a) (replaced rs b) ≡ some r
            → IsShaped V next (replaced rs a) (replaced rs b) r
            → OnValues ext V n d op t a b is rs next k g kd dn ba bb settled r
            → ((rs' : Replacements)
                → IsSettled V n (suc d) (next + length em) rs'
                → Outcome rule n skips rs' (next + length em) is)
            → Outcome rule n skip rs next (binary d op t a b ∷ is)
      unfolding run_block
      run_block-binary em none false skips eq shape pres ih = absurd (shape.erased refl refl)
      run_block-binary em none true skips eq shape pres ih =
          let (res, ran, sim) =
            ih rs (IsSettled-next V n (suc d) next (next + length em) rs (omega arith) plain) in
          (
            prepend (em ++ binary d op t (replaced rs a) (replaced rs b) ∷ []) res,
            rw (eq, ran),
            λ e e' w w₁ e₁ agree h.
                let s =
                  head ext V n d op t a b is rs next k g kd dn ba bb settled em none true skips
                    shape pres e e' w w₁ e₁ agree h in
                let agree' =
                  Agree-plain V n k next d rs settled kd dn e e' agree s.x g s.env s.frame
                    (s.defined refl) in
                let (e₂, run, last) = sim (update e d s.x) s.env w w₁ e₁ agree' s.rest in
                (e₂, rw (exec-append, s.runs) run, last),
          )
        where
          plain : IsSettled V n (suc d) next rs
          plain = IsSettled-plain V n k next d rs settled kd dn
      run_block-binary em (some v) kept skips eq shape pres ih =
          let (res, ran, sim) = ih (record { old = d; new = v } ∷ rs) extends in
          (
            prepend (em ++ keeping kept (binary d op t (replaced rs a) (replaced rs b)) []) res,
            rw (eq, ran),
            λ e e' w w₁ e₁ agree h.
                let s =
                  head ext V n d op t a b is rs next k g kd dn ba bb settled em (some v) kept skips
                    shape pres e e' w w₁ e₁ agree h in
                let agree' =
                  Agree-replaced V n k next d rs settled kd dn e e' agree s.x g s.env v s.frame
                    (s.result v refl) in
                let (e₂, run, last) = sim (update e d s.x) s.env w w₁ e₁ agree' s.rest in
                (e₂, rw (exec-append, s.runs) run, last),
          )
        where
          extends : IsSettled V n (suc d) (next + length em) (record { old = d; new = v } ∷ rs)
          extends =
              IsSettled-replaced V n k next d rs settled kd dn (next + length em) v (omega arith)
                (shape.origin v refl).0
                (Origin-InRange n d next (next + length em) (replaced rs a) (replaced rs b) v g
                  (omega arith) (range_a ext V n d op t a b is rs next k g kd dn ba bb settled)
                  (range_b ext V n d op t a b is rs next k g kd dn ba bb settled)
                  (shape.origin v refl).1)

    -- The induction over the block.
    run_block-Outcome :
        (sound : IsSoundRule ext T V rule) (is : List Inst) (skip : Bool) (rs : Replacements)
        (next k : ℕ)
        → n ≤ next
        → IsNumbered T V n k is
        → IsSettled V n k next rs
        → Outcome rule n skip rs next is
    run_block-Outcome sound [] skip rs next k g num settled = (
      record { code = []; pending = rs; next = next },
      unfold run_block in refl,
      λ e e' w w₁ e₁ agree h. (
        e',
        unfold exec in ap (λ (v : W). some (e', v)) (exec-nil e w e₁ w₁ h).1,
        λ x hx. ap (λ (f : Env). f x) (sym (exec-nil e w e₁ w₁ h).0) ∙ agree x hx,
      ),
    )
    run_block-Outcome sound (other d kind args ∷ is) skip rs next k g (kd, dn, below, num) settled =
        run_block-other d kind args is skip rs next k g kd dn below settled (
          run_block-Outcome sound is false rs next (suc d) g num
            (IsSettled-plain V n k next d rs settled kd dn))
    run_block-Outcome sound (binary d op t a b ∷ is) skip rs next k g (kd, dn, ht, pa, pb, num)
          settled =
        let below_a = Below-mono d n a (omega arith) pa.0 in
        let below_b = Below-mono d n b (omega arith) pb.0 in
        let (r, eq, shape, pres) =
          looked_at-IsSoundRule rule skip sound next op t (replaced rs a) (replaced rs b) ht
            (replaced-V V n k next rs a settled below_a pa.1)
            (replaced-V V n k next rs b settled below_b pb.1) in
        run_block-binary d op t a b is skip rs next k g kd dn pa.0 pb.0 settled r.emitted r.new_val
          r.kept r.skips eq shape pres
          (λ rs' settled'.
            run_block-Outcome sound is r.skips rs' (next + length r.emitted) (suc d) (omega arith)
              num settled')

  -- A rule that keeps its contract may run over any numbered block.
  pub run_block-Simulates :
      (rule : Rule) (n k : ℕ) (is : List Inst)
      → IsSoundRule ext T V rule
      → ((x : ℕ) → V (ref x))
      → IsNumbered T V n k is
      → (res : Rewritten) × (run_block rule false [] n is ≡ some res) × Simulates ext n [] is res
  run_block-Simulates rule n k is sound refs num =
      run_block-Outcome rule n sound is false [] n k (omega arith) num (λ x h. (refs x, inl refl))
