-- ===== src/Uses/When.antt =====
-- Value::replace_use_with_when is the replacement over the uses by the chosen users.
use poly_cminus.Prelude.{
  ℕ, ◌≡◌, refl, sym, ap, ◌∙◌, Bool, not, Bool-cases, inl, inr, if◌then◌else◌, Option, none, some,
  ◌>>=◌, List, [], ◌∷◌,
}
use poly_cminus.Uses.{
  Use, Store, put, set_operand, Kept, keep, replace_uses, replace_uses_when, replace_use_with_when,
}

abbrev pub by_users : (ℕ → Bool) → List Use → List Use
by_users pred [] = []
by_users pred (entry ∷ uses) =
    let rest = by_users pred uses in if pred entry.user then entry ∷ rest else rest

bind-bind {ℓ κ μ} :
    {A : Type ℓ} {B : Type κ} {C : Type μ} (o : Option A) {f : A → Option C} (g : A → Option B)
    (k : B → Option C)
    → ((a : A) → f a ≡ (g a >>= k))
    → (o >>= f) ≡ ((o >>= g) >>= k)
bind-bind none g k h = refl
bind-bind (some a) g k h = h a

replace_uses_when_lem :
    (pred : ℕ → Bool) (new : ℕ) (uses : List Use) (s : Store)
    → replace_uses_when pred new uses s ≡ (
        replace_uses new (by_users pred uses) s >>= λ t.
        some (record { uses = by_users (λ u. not (pred u)) uses; store = t }))
unfolding replace_uses_when replace_uses
replace_uses_when_lem pred new [] s = refl
replace_uses_when_lem pred new (entry ∷ uses) s = elim (Bool-cases (pred entry.user)) [
  | inl p ↦ rw p (
      bind-bind (set_operand entry.user entry.arg_no new s)
        (λ t. replace_uses new (by_users pred uses) t) _
        (λ t. replace_uses_when_lem pred new uses t))
  | inr p ↦ rw p (
      ap (λ (o : Option Kept). o >>= keep entry) (replace_uses_when_lem pred new uses s)
      ∙ sym (bind-bind (replace_uses new (by_users pred uses) s) _ (keep entry) (λ t. refl)))
]

-- The replacement under a condition gives what the loop of the full replacement gives on the uses
-- by the users that satisfy it, and the old value keeps its other uses, in their order.
pub replace_use_with_when-by_users :
    (pred : ℕ → Bool) (old new : ℕ) (s : Store)
    → replace_use_with_when pred old new s ≡ (
        replace_uses new (by_users pred (s.use_list old)) s >>= λ t. some (record t {
          use_list = put t.use_list old (by_users (λ u. not (pred u)) (s.use_list old));
        }))
unfolding replace_use_with_when
replace_use_with_when-by_users pred old new s =
    ap
      (λ (o : Option Kept).
        o >>= λ k. some (record k.store { use_list = put k.store.use_list old k.uses }))
      (replace_uses_when_lem pred new (s.use_list old) s)
    ∙ sym (bind-bind (replace_uses new (by_users pred (s.use_list old)) s) _ _ (λ t. refl))
