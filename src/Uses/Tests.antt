-- ===== src/Uses/Tests.antt =====
-- Operands and uses of two small instructions.
use poly_cminus.Prelude.{
  ℕ, ◌==◌, true, false, not, if◌then◌else◌, some, ◌>>=◌, [], ◌∷◌, ◌≡◌, refl, arith,
}
use poly_cminus.Uses.{
  Store, get_operand, add_operand, replace_all_use_with, remove_use_of_ops, replace_uses,
  replace_use_with_when, put, without_use,
}
use poly_cminus.Uses.Consistent.Remove.{all_set, remove_use_of_ops-has_use}
use poly_cminus.Uses.Consistent.{has_use, IsConsistent, is_value, add_operand-IsConsistent}
use poly_cminus.Uses.When.{by_users, replace_use_with_when-by_users}
use poly_cminus.Uses.Consistent.Replace.{replace_all_use_with-IsConsistent}

abbrev no_uses : Store
no_uses = record { operands = λ u. []; use_list = λ v. [] }

no_uses-IsConsistent : IsConsistent no_uses
no_uses-IsConsistent v u i = refl

-- %7 = op %1, %1.
abbrev square : Store
square = add_operand 7 1 (add_operand 7 1 no_uses)

add_operand-IsConsistent_example : IsConsistent square
add_operand-IsConsistent_example =
    add_operand-IsConsistent 7 1 (add_operand 7 1 no_uses)
      (add_operand-IsConsistent 7 1 no_uses no_uses-IsConsistent)

replace_all_use_with-IsConsistent_example :
    (s' : Store) × (replace_all_use_with 1 2 square ≡ some s')
    × IsConsistent s'
    × ((u i : ℕ)
        → get_operand s' u i
          ≡ (if is_value (get_operand square u i) 1 then some 2 else get_operand square u i))
    × (s'.use_list 1 ≡ [])
replace_all_use_with-IsConsistent_example =
    replace_all_use_with-IsConsistent 1 2 square (λ p. absurd (omega (arith, p)))
      (add_operand-IsConsistent 7 1 (add_operand 7 1 no_uses)
        (add_operand-IsConsistent 7 1 no_uses no_uses-IsConsistent))

-- Both operands are there.
operands_set : all_set (square.operands 7) ≡ true
unfolding add_operand
operands_set = refl

remove_use_of_ops-has_use_example :
    (s' : Store) × (remove_use_of_ops 7 square ≡ some s')
    × (s'.operands ≡ square.operands)
    × ((v x i : ℕ)
        → has_use (s'.use_list v) x i ≡ (if x == 7 then false else has_use (square.use_list v) x i))
remove_use_of_ops-has_use_example =
    remove_use_of_ops-has_use 7 square
      (add_operand-IsConsistent 7 1 (add_operand 7 1 no_uses)
        (add_operand-IsConsistent 7 1 no_uses no_uses-IsConsistent))
      operands_set

without_use_example :
    without_use (record { user = 7; arg_no = 0 } ∷ record { user = 7; arg_no = 1 } ∷ []) 7 0
    ≡ record { user = 7; arg_no = 1 } ∷ []
without_use_example = refl

replace_use_with_when-by_users_example : replace_use_with_when (λ u. u == 7) 1 2 square ≡ (
    replace_uses 2 (by_users (λ u. u == 7) (square.use_list 1)) square >>= λ t.
    some
      (record t { use_list = put t.use_list 1 (by_users (λ u. not (u == 7)) (square.use_list 1)) }))
replace_use_with_when-by_users_example = replace_use_with_when-by_users (λ u. u == 7) 1 2 square
