-- ===== src/Ir/Simulation/Head.antt =====
-- One binary instruction: what the code that a rule leaves for it does, next to the instruction.
use poly_cminus.Prelude.{
  ℕ, ◌+◌, ◌≤◌, ◌<◌, ◌≡◌, refl, ◌∙◌, Bool, true, false, Option, >>=-eq-some, some, List, [], ◌∷◌,
  ◌++◌, map, arith, length,
}
use mathlib.Core.List.{append-nil}
use poly_cminus.Ir.{OpId, IntTy, Value, Inst, binary, other, Replacements, replaced, num_bits}
use poly_cminus.Ir.Word.{word_op}
use poly_cminus.Ir.Exec.{Env, External, update, value_of, exec, exec_inst}
use poly_cminus.Ir.Rewrite.{Rewrite, keeping}
use poly_cminus.Ir.Simulation.{Below, Agree, InRange, IsSettled, IsShaped, Preserves}
use poly_cminus.Ir.Simulation.Operands.{
  InRange-Below, value_of-ext, value_of-update, value_of-replaced, Below-mono, replaced-InRange,
  Origin-InRange,
}
use poly_cminus.Ir.Simulation.Steps.{Frame, exec-append}

module _ {W : Type 0} (ext : External W) where
  pub exec_inst-binary :
      (d : ℕ) (op : OpId) (t : IntTy) (a b : Value) (e : Env) (w : W) (r : Env × W)
      → exec_inst ext (binary d op t a b) e w ≡ some r
      → (x : ℕ) × (word_op (num_bits t) op (value_of e a) (value_of e b) ≡ some x)
        × (r ≡ (update e d x, w))
  unfolding exec_inst
  exec_inst-binary d op t a b e w r h =
      let (x, p, q) =
        >>=-eq-some (word_op (num_bits t) op (value_of e a) (value_of e b))
          (λ x. some (update e d x, w)) h in
      (x, p, cc)

  pub exec_inst-other :
      (d kind : ℕ) (args : List Value) (e : Env) (w : W) (r : Env × W)
      → exec_inst ext (other d kind args) e w ≡ some r
      → (z : ℕ × W) × (ext kind (map (value_of e) args) w ≡ some z) × (r ≡ (update e d z.0, z.1))
  unfolding exec_inst
  exec_inst-other d kind args e w r h =
      let (z, p, q) =
        >>=-eq-some (ext kind (map (value_of e) args) w) (λ r. some (update e d r.0, r.1)) h in
      (z, p, cc)

  pub exec-cons :
      (i : Inst) (is : List Inst) (e : Env) (w : W) (z : Env × W)
      → exec ext (i ∷ is) e w ≡ some z
      → (r : Env × W) × (exec_inst ext i e w ≡ some r) × (exec ext is r.0 r.1 ≡ some z)
  unfolding exec
  exec-cons i is e w z h = >>=-eq-some (exec_inst ext i e w) (λ r. exec ext is r.0 r.1) h

module _ {W : Type 0} (ext : External W) (V : Value → Type 0) (n : ℕ) where
  -- What the code for one binary instruction does, next to the instruction.
  pub record IsHead (d : ℕ) (is : List Inst) (next : ℕ) (r : Rewrite) (head : List Inst)
      (e e' : Env) (w w₁ : W) (e₁ : Env) : Type 0 where
    pub x : ℕ
    pub env : Env
    pub runs : exec ext head e' w ≡ some (env, w)
    pub frame : Frame next d e' env
    pub rest : exec ext is (update e d x) w ≡ some (e₁, w₁)
    pub defined : r.kept ≡ true → env d ≡ x
    pub result : (v : Value) → r.new_val ≡ some v → value_of env v ≡ x

  module _ (d : ℕ) (op : OpId) (t : IntTy) (a b : Value) (is : List Inst) (rs : Replacements)
      (next k : ℕ) (g : n ≤ next) (kd : k ≤ d) (dn : d < n) (ba : Below d a) (bb : Below d b)
      (settled : IsSettled V n k next rs) where
    abbrev pub a' : Value
    a' = replaced rs a

    abbrev pub b' : Value
    b' = replaced rs b

    pub range_a : InRange n d next a'
    range_a = replaced-InRange V n k next d rs a settled kd dn ba

    pub range_b : InRange n d next b'
    range_b = replaced-InRange V n k next d rs b settled kd dn bb

    abbrev pub OnValues : Rewrite → Type 0
    OnValues r =
        (e : Env) (x : ℕ)
        → Below next a'
        → Below next b'
        → word_op (num_bits t) op (value_of e a') (value_of e b') ≡ some x
        → Preserves ext next e x r

    operand_value :
        (e e' env : Env) (u : Value)
        → Agree n rs e e'
        → ((y : ℕ) → y < next → env y ≡ e' y)
        → Below d u
        → value_of env (replaced rs u) ≡ value_of e u
    operand_value e e' env u agree same bu =
        let range = replaced-InRange V n k next d rs u settled kd dn bu in
        let below = InRange-Below n d next next (replaced rs u) (omega arith) (omega arith) range in
        value_of-ext next e' env (replaced rs u) same below
        ∙ value_of-replaced n rs e e' agree u (Below-mono d n u (omega arith) bu)

    preserved :
        (r : Rewrite) (e e' : Env) (x : ℕ)
        → OnValues r
        → Agree n rs e e'
        → word_op (num_bits t) op (value_of e a) (value_of e b) ≡ some x
        → Preserves ext next e' x r
    preserved r e e' x pres agree h =
        let below_a = InRange-Below n d next next a' (omega arith) (omega arith) range_a in
        let below_b = InRange-Below n d next next b' (omega arith) (omega arith) range_b in
        let same_a = operand_value e e' e' a agree (λ y yn. refl) ba in
        let same_b = operand_value e e' e' b agree (λ y yn. refl) bb in
        pres e' x below_a below_b (rw (same_a, same_b) h)

    pub head :
        (em : List Inst) (nv : Option Value) (kept skips : Bool)
        → let r : Rewrite = record { emitted = em; new_val = nv; kept = kept; skips = skips } in
          IsShaped V next a' b' r
          → OnValues r
          → (e e' : Env) (w w₁ : W) (e₁ : Env) → Agree n rs e e'
          → exec ext (binary d op t a b ∷ is) e w ≡ some (e₁, w₁)
          → IsHead d is next r (em ++ keeping kept (binary d op t a' b') []) e e' w w₁ e₁
    head em nv kept skips shape pres e e' w w₁ e₁ agree h =
        let (r, p, q) = exec-cons ext (binary d op t a b) is e w (e₁, w₁) h in
        let (x, px, pr) = exec_inst-binary ext d op t a b e w r p in
        let q' : exec ext is (update e d x) w ≡ some (e₁, w₁) = rw pr at q in
        finish kept x px q' (preserved _ e e' x pres agree px)
      where
        finish :
            (kept : Bool) (x : ℕ)
            → word_op (num_bits t) op (value_of e a) (value_of e b) ≡ some x
            → exec ext is (update e d x) w ≡ some (e₁, w₁)
            → Preserves ext next e' x
                (record { emitted = em; new_val = nv; kept = kept; skips = skips })
            → IsHead d is next
                (record { emitted = em; new_val = nv; kept = kept; skips = skips })
                (em ++ keeping kept (binary d op t a' b') [])
                e
                e'
                w
                w₁
                e₁
        finish false x px q s = record {
          x = x;
          env = s.env;
          runs = rw append-nil (s.runs w);
          frame = λ y yn yd. s.same y yn;
          rest = q;
          defined = λ f. cc;
          result = s.result;
        }
        finish true x px q s = record {
          x = x;
          env = update s.env d x;
          runs =
              let same_a = operand_value e e' s.env a agree s.same ba in
              let same_b = operand_value e e' s.env b agree s.same bb in
              rw (exec-append, s.runs w) (unfold exec exec_inst in rw (same_a, same_b, px));
          frame = λ y yn yd. ground (arith, s.same y yn);
          rest = q;
          defined = λ f. ground arith;
          result = λ v hv.
              let origin = (shape.origin v hv).1 in
              let range =
                Origin-InRange n d next (next + length em) a' b' v g (omega arith) range_a range_b
                  origin in
              value_of-update n d (next + length em) d x s.env v (omega arith) dn range
              ∙ s.result v hv;
        }
