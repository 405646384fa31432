-- ===== src/Ir/Simulation/Contract.antt =====
-- The contract of the rewrites that emit nothing.
use poly_cminus.Prelude.{ℕ, ◌+◌, ◌≡◌, refl, subst, Bool, false, some, []}
use poly_cminus.Ir.{Value}
use poly_cminus.Ir.Exec.{Env, External, value_of, exec}
use poly_cminus.Ir.Rewrite.{Rewrite, unchanged}
use poly_cminus.Ir.Simulation.{IsShaped, Preserves, Origin}

pub unchanged-IsShaped :
    (V : Value → Type 0) (next : ℕ) (a b : Value) → IsShaped V next a b unchanged
unchanged-IsShaped V next a b = record { origin = λ v h. cc; erased = λ h. cc }

-- The instruction's uses go over to `v`.
abbrev pub replace_by : Value → Bool → Rewrite
replace_by v kept = record { emitted = []; new_val = some v; kept = kept; skips = false }

pub replace_by-IsShaped :
    (V : Value → Type 0) (next : ℕ) (a b v : Value) (kept : Bool)
    → V v
    → Origin next (next + 0) a b v
    → IsShaped V next a b (replace_by v kept)
replace_by-IsShaped V next a b v kept good from = record {
  origin = λ u h.
      let same : v ≡ u = cc in (subst V same good, subst (Origin next (next + 0) a b) same from);
  erased = λ h. λ p. cc;
}

module _ {W : Type 0} (ext : External W) (next : ℕ) (e : Env) (x : ℕ) where
  pub unchanged-Preserves : Preserves ext next e x unchanged
  unchanged-Preserves = record {
    env = e;
    runs = λ w. unfold exec in refl;
    same = λ y h. refl;
    result = λ v h. cc;
  }

  pub replace_by-Preserves :
      (v : Value) (kept : Bool) → value_of e v ≡ x → Preserves ext next e x (replace_by v kept)
  replace_by-Preserves v kept h = record {
    env = e;
    runs = λ w. unfold exec in refl;
    same = λ y _. refl;
    result = λ u p. let same : v ≡ u = cc in subst (λ (u : Value). value_of e u ≡ x) same h;
  }
