-- ===== src/ConstFold/Tests.antt =====
-- Folding of small constants.
use poly_cminus.Prelude.{◌-◌, ◌^◌, ◌≡◌, ◌≢◌, refl, some, arith}
use poly_cminus.Ir.{add, sdiv, i32, i64, i1, Value, const_int}
use poly_cminus.Ir.Word.{word_op}
use poly_cminus.ConstFold.{eval, eval_cmp, folded, lt}
use poly_cminus.ConstFold.Operators.{eval-word_op, eval-i64_overflow}
use poly_cminus.ConstFold.Comparisons.{eval_cmp-holds}
use poly_cminus.Ir.Exec.{value_of}

quotient_of_minus_seven : word_op 32 sdiv (2 ^ 32 - 7) 2 ≡ some (2 ^ 32 - 3)
unfolding word_op
quotient_of_minus_seven = refl

-- -7 / 2 is -3.
eval-word_op_example :
    (v : Value) × (eval sdiv (const_int i32 (2 ^ 32 - 7)) (const_int i32 2) ≡ folded v)
    × (value_of (λ x. 0) v ≡ 2 ^ 32 - 3)
eval-word_op_example =
    eval-word_op (λ x. 0) sdiv (2 ^ 32 - 7) 2 (2 ^ 32 - 3) (omega arith) (omega arith)
      (λ p. absurd (omega (arith, p.0))) quotient_of_minus_seven

eval_cmp-holds_example :
    eval_cmp lt (const_int i32 (2 ^ 32 - 1)) (const_int i32 0) ≡ folded (const_int i1 1)
eval_cmp-holds_example = eval_cmp-holds lt i32 i32 (2 ^ 32 - 1) 0 (omega arith) (omega arith)

eval-i64_overflow_example :
    (word_op 64 add (2 ^ 31 - 1) 1 ≡ some (2 ^ 31))
    × (v : Value) × (eval add (const_int i64 (2 ^ 31 - 1)) (const_int i64 1) ≡ folded v)
    × (value_of (λ x. 0) v ≢ 2 ^ 31)
eval-i64_overflow_example =
    eval-i64_overflow (λ x. 0) (2 ^ 31 - 1) 1 (omega arith) (omega arith) (omega arith)
