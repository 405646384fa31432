-- ===== src/Ir/Simulation/Emit.antt =====
-- The contract of the rewrites that emit binary instructions, one instruction at a time.
use poly_cminus.Prelude.{ℕ, ◌+◌, ◌≤◌, ◌<◌, ◌≡◌, refl, ◌∙◌, Bool, some, List, [], ◌∷◌, arith}
use poly_cminus.Ir.{OpId, IntTy, Value, const_int, ref, Inst, binary, num_bits}
use poly_cminus.Ir.Word.{word_op}
use poly_cminus.Ir.Exec.{Env, External, update, value_of, exec, exec_inst}
use poly_cminus.Ir.Simulation.{Below, IsShaped, Preserves, Origin, fresh}
use poly_cminus.Ir.Rewrite.{Rewrite}
use poly_cminus.Prelude.{subst, length}

-- The value of an operand older than the new identity.
pub value_of-update_fresh :
    (e : Env) (d z : ℕ) (v : Value) → Below d v → value_of (update e d z) v ≡ value_of e v
value_of-update_fresh e d z (const_int t c) h = refl
value_of-update_fresh e d z (ref y) h = ground arith

pub value_of-update_self : (e : Env) (d z : ℕ) → value_of (update e d z) (ref d) ≡ z
value_of-update_self e d z = ground arith

-- The instructions `is` are inserted, and `v` takes over the uses.
abbrev pub emitting : Value → Bool → Bool → List Inst → Rewrite
emitting v kept skips is = record { emitted = is; new_val = some v; kept = kept; skips = skips }

module _ {W : Type 0} (ext : External W) where
  pub exec-binary :
      (d : ℕ) (op : OpId) (t : IntTy) (a b : Value) (is : List Inst) (e : Env) (z : ℕ) (w : W)
      → word_op (num_bits t) op (value_of e a) (value_of e b) ≡ some z
      → exec ext (binary d op t a b ∷ is) e w ≡ exec ext is (update e d z) w
  unfolding exec exec_inst
  exec-binary d op t a b is e z w h = rw h

  module _ (x : ℕ) (v : Value) (kept skips : Bool) where
    pub Preserves-nil :
        (next : ℕ) (e : Env) → value_of e v ≡ x → Preserves ext next e x (emitting v kept skips [])
    Preserves-nil next e h = record {
      env = e;
      runs = λ w. unfold exec in refl;
      same = λ y _. refl;
      result = λ u p. let same : v ≡ u = cc in subst (λ (u : Value). value_of e u ≡ x) same h;
    }

    pub Preserves-cons :
        (next next' d : ℕ) (op : OpId) (t : IntTy) (a b : Value) (is : List Inst) (e : Env) (z : ℕ)
        → next ≤ d
        → d < next'
        → word_op (num_bits t) op (value_of e a) (value_of e b) ≡ some z
        → Preserves ext next' (update e d z) x (emitting v kept skips is)
        → Preserves ext next e x (emitting v kept skips (binary d op t a b ∷ is))
    Preserves-cons next next' d op t a b is e z p q h s = record {
      env = s.env;
      runs = λ w. exec-binary d op t a b is e z w h ∙ s.runs w;
      same = λ y yn. s.same y (omega arith) ∙ ground arith;
      result = s.result;
    }

pub emitted-IsShaped :
    (V : Value → Type 0) (next d : ℕ) (a b : Value) (kept skips : Bool) (is : List Inst)
    → V (ref d)
    → next ≤ d
    → d < next + length is
    → IsShaped V next a b
        (record { emitted = is; new_val = some (ref d); kept = kept; skips = skips })
emitted-IsShaped V next d a b kept skips is good p q = record {
  origin = λ u h.
      let same : ref d ≡ u = cc in
      (subst V same good, subst (Origin next (next + length is) a b) same (fresh d p q refl));
  erased = λ h. λ p. cc;
}
