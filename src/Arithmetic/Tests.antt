-- ===== src/Arithmetic/Tests.antt =====
-- Small operations that are built.
use poly_cminus.Prelude.{◌≡◌, refl, some, arith}
use poly_cminus.Ir.{add, mul, sdiv, i32, const_int, ref}
use poly_cminus.Ir.Word.{word_op}
use poly_cminus.Ir.Sample.{cell}
use poly_cminus.Arithmetic.{Built, add_i32_at, mul_i32_at, sdiv_i32_at}
use poly_cminus.Arithmetic.Sound.{
  Computes, add_i32_at-Builds, mul_i32_at-Builds, sdiv_i32_at-Builds,
}

sum_of_words : word_op 32 add 5 2 ≡ some 7
unfolding word_op
sum_of_words = refl

product_of_words : word_op 32 mul 3 5 ≡ some 15
unfolding word_op
product_of_words = refl

quotient_of_words : word_op 32 sdiv 5 2 ≡ some 2
unfolding word_op
quotient_of_words = refl

-- %0 is 5.
add_i32_at-Builds_example :
    (b : Built) × (add_i32_at (λ x. i32) 1 (ref 0) (const_int i32 2) ≡ some b)
    × Computes cell (λ x. 5) 7 b
add_i32_at-Builds_example =
    add_i32_at-Builds cell (λ x. i32) (λ x. 5) 1 7 (ref 0) (const_int i32 2) refl
      (refl, omega arith) sum_of_words

mul_i32_at-Builds_example :
    (b : Built) × (mul_i32_at (λ x. i32) 1 (const_int i32 3) (ref 0) ≡ some b)
    × Computes cell (λ x. 5) 15 b
mul_i32_at-Builds_example =
    mul_i32_at-Builds cell (λ x. i32) (λ x. 5) 1 15 (const_int i32 3) (ref 0) (refl, omega arith)
      refl product_of_words

sdiv_i32_at-Builds_example :
    (b : Built) × (sdiv_i32_at (λ x. i32) 1 (ref 0) (const_int i32 2) ≡ some b)
    × Computes cell (λ x. 5) 2 b
sdiv_i32_at-Builds_example =
    sdiv_i32_at-Builds cell (λ x. i32) (λ x. 5) 1 2 (ref 0) (const_int i32 2) refl
      (refl, omega arith) refl quotient_of_words
