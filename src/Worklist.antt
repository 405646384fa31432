-- ===== src/Worklist.antt =====
-- The loop `while (not worklist.empty())` of include/Optimize/FuncInfo.hh and
-- include/Optimize/DeadCode.hh: it takes the front of the queue and works on it, which may put more
-- at the end. `none` stands for an access through a null pointer, or for fuel that is used up.
pub mod Left
pub mod Touched
pub mod Closed
use poly_cminus.Prelude.{ℕ, zero, suc, Option, none, some, ◌>>=◌, List, [], ◌∷◌}

-- What is known of the elements, and the elements to work on.
pub record Pending (F : Type 0) : Type 0 where
  pub flags : F
  pub queue : List ℕ

abbrev pub each {ℓ} : {S : Type ℓ} → (ℕ → S → S) → List ℕ → S → S
each touch [] s = s
each touch (t ∷ ts) s = each touch ts (touch t s)

module _ {F : Type 0} (process : ℕ → Pending F → Option (Pending F)) where
  unfoldable pub work : ℕ → Pending F → Option (Pending F)
  work zero s = elim (s.queue) [ [] ↦ some s | x ∷ q ↦ none ]
  work (suc fuel) s = elim (s.queue) [
    | [] ↦ some s
    | x ∷ q ↦ process x (record s { queue = q }) >>= work fuel
  ]
