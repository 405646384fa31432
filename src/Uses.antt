-- ===== src/Uses.antt =====
-- src/MIR_new/User.cc and src/MIR_new/Value.cc: operands and use lists, as one store. A value is
-- its identity; an operand that was not set yet is null.
pub mod Consistent
pub mod When
mod Tests
use poly_cminus.Prelude.{
  ℕ, zero, suc, ◌==◌, ◌&&◌, ◌||◌, ltb, length, Bool, true, false, not, if◌then◌else◌, Option, none,
  some, ◌>>=◌, List, [], ◌∷◌, ◌++◌,
}

-- `Use`: the user and the number of its operand.
pub record Use : Type 0 where
  pub user : ℕ
  pub arg_no : ℕ

-- `operands_` of every user, and `use_list_` of every value.
pub record Store : Type 0 where
  pub operands : ℕ → List (Option ℕ)
  pub use_list : ℕ → List Use

abbrev pub put {ℓ} : {A : Type ℓ} → (ℕ → A) → ℕ → A → ℕ → A
put f x a y = if y == x then a else f y

-- `operands_[i]`; `none` stands for a null pointer too.
abbrev pub operand_at : List (Option ℕ) → ℕ → Option ℕ
operand_at [] i = none
operand_at (o ∷ os) zero = o
operand_at (o ∷ os) (suc i) = operand_at os i

abbrev pub set_at : List (Option ℕ) → ℕ → Option ℕ → List (Option ℕ)
set_at [] i v = []
set_at (o ∷ os) zero v = v ∷ os
set_at (o ∷ os) (suc i) v = o ∷ set_at os i v

abbrev pub get_operand : Store → ℕ → ℕ → Option ℕ
get_operand s u i = operand_at (s.operands u) i

-- `Value::add_use`
abbrev pub add_use : ℕ → ℕ → ℕ → Store → Store
add_use v u i s = record s {
  use_list = put s.use_list v (s.use_list v ++ record { user = u; arg_no = i } ∷ []);
}

-- `User::set_operand`, whose assertion fails out of range. The use of the former operand stays.
unfoldable pub set_operand : ℕ → ℕ → ℕ → Store → Option Store
set_operand u i v s =
    if ltb i (length (s.operands u))
    then some (
        add_use v u i (record s { operands = put s.operands u (set_at (s.operands u) i (some v)) }))
    else none

unfoldable pub add_operand : ℕ → ℕ → Store → Store
add_operand u v s =
    add_use v u (length (s.operands u))
      (record s { operands = put s.operands u (s.operands u ++ some v ∷ []) })

abbrev pub without_user : List Use → ℕ → List Use
without_user [] u = []
without_user (entry ∷ uses) u =
    if entry.user == u then without_user uses u else entry ∷ without_user uses u

-- `Value::remove_use`, of every use by a user.
abbrev pub remove_use : ℕ → ℕ → Store → Store
remove_use v u s = record s { use_list = put s.use_list v (without_user (s.use_list v) u) }

abbrev pub remove_uses : ℕ → List (Option ℕ) → Store → Option Store
remove_uses u [] s = some s
remove_uses u (none ∷ os) s = none
remove_uses u (some v ∷ os) s = remove_uses u os (remove_use v u s)

-- `User::remove_use_of_ops`; `none` is a call through a null pointer.
unfoldable pub remove_use_of_ops : ℕ → Store → Option Store
remove_use_of_ops u s = remove_uses u (s.operands u) s

-- The loop of `Value::replace_all_use_with` over the use list of another value.
unfoldable pub replace_uses : ℕ → List Use → Store → Option Store
replace_uses new [] s = some s
replace_uses new (entry ∷ uses) s =
    set_operand entry.user entry.arg_no new s >>= λ s'. replace_uses new uses s'

unfoldable pub replace_all_use_with : ℕ → ℕ → Store → Option Store
replace_all_use_with old new s = replace_uses new (s.use_list old) s >>= λ s'.
    some (record s' { use_list = put s'.use_list old [] })

-- What the loop of `Value::replace_use_with_when` leaves: the uses that it does not erase.
pub record Kept : Type 0 where
  pub uses : List Use
  pub store : Store

abbrev pub keep : Use → Kept → Option Kept
keep entry k = some (record k { uses = entry ∷ k.uses })

unfoldable pub replace_uses_when : (ℕ → Bool) → ℕ → List Use → Store → Option Kept
replace_uses_when pred new [] s = some (record { uses = []; store = s })
replace_uses_when pred new (entry ∷ uses) s =
    if pred entry.user
    then (set_operand entry.user entry.arg_no new s >>= λ s'. replace_uses_when pred new uses s')
    else (replace_uses_when pred new uses s >>= keep entry)

-- `Value::replace_use_with_when`, by another value.
unfoldable pub replace_use_with_when : (ℕ → Bool) → ℕ → ℕ → Store → Option Store
replace_use_with_when pred old new s = replace_uses_when pred new (s.use_list old) s >>= λ k.
    let s' = k.store in some (record s' { use_list = put s'.use_list old k.uses })

abbrev pub without_use : List Use → ℕ → ℕ → List Use
without_use [] u i = []
without_use (entry ∷ uses) u i =
    let rest = without_use uses u i in
    if entry.user == u && entry.arg_no == i then rest else entry ∷ rest

-- `Value::remove_use`, of one operand.
abbrev pub remove_use_at : ℕ → ℕ → ℕ → Store → Store
remove_use_at v u i s = record s { use_list = put s.use_list v (without_use (s.use_list v) u i) }
