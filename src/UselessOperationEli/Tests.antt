-- ===== src/UselessOperationEli/Tests.antt =====
-- The simplification at work on small blocks.
use poly_cminus.Prelude.{◌≡◌, refl, false, some, List, [], ◌∷◌, arith}
use poly_cminus.Ir.{mul, add, and_, i32, const_int, ref, Inst, binary, other}
use poly_cminus.Ir.Word.{word_op}
use poly_cminus.Ir.Sample.{cell}
use poly_cminus.Ir.Rewrite.{Rewritten, run_block}
use poly_cminus.Ir.Simulation.{Simulates}
use poly_cminus.UselessOperationEli.{useless_rule, simplified, run}
use poly_cminus.UselessOperationEli.Sound.{run_block-useless_rule, simplified-and_-zero}

-- %1 = %0 * 1; %2 = 0 + %1; the cell becomes %2.
abbrev neutral : List Inst
neutral =
    other 0 0 []
    ∷ binary 1 mul i32 (ref 0) (const_int i32 1)
    ∷ binary 2 add i32 (const_int i32 0) (ref 1)
    ∷ other 3 1 (ref 2 ∷ [])
    ∷ []

run_block-useless_rule_example :
    (res : Rewritten) × (run_block useless_rule false [] 4 neutral ≡ some res)
    × Simulates cell 4 [] neutral res
run_block-useless_rule_example = run_block-useless_rule cell 4 0 neutral (
  omega arith,
  omega arith,
  tt,
  (
    omega arith,
    omega arith,
    (λ p. cc),
    (omega arith, tt),
    (tt, tt),
    (
      omega arith,
      omega arith,
      (λ p. cc),
      (tt, tt),
      (omega arith, tt),
      (omega arith, omega arith, (omega arith, tt), tt),
    ),
  ),
)

simplified-and_-zero_example :
    (simplified and_ (ref 0) (const_int i32 0) ≡ some (ref 0)) × (word_op 32 and_ 5 0 ≡ some 0)
simplified-and_-zero_example =
    simplified-and_-zero (λ x. 5) i32 (ref 0) (λ p. absurd (omega (arith, p))) (omega arith)

neutral_removed : run 4 ((neutral) ∷ []) ≡ some ((other 0 0 [] ∷ other 3 1 (ref 0 ∷ []) ∷ []) ∷ [])
unfolding run poly_cminus.Ir.Rewrite.run_function simplified
neutral_removed = refl
