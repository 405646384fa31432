-- ===== src/MulWeaken/Tests.antt =====
-- The multiplication pass at work on small blocks.
use poly_cminus.Prelude.{ℕ, ◌-◌, ◌^◌, ◌≡◌, refl, false, true, none, some, List, [], ◌∷◌, arith}
use poly_cminus.Ir.{
  mul, add, sub, shl, i32, i64, i1, IntTy, const_int, ref, Inst, binary, other, OpId,
}
use poly_cminus.Ir.Sample.{cell}
use poly_cminus.Ir.Rewrite.{Rewritten, run_block}
use poly_cminus.Ir.Simulation.{Simulates}
use poly_cminus.MulWeaken.{exact, below, shifted_const, exponent, is_power, mul_weaken_rule, run}
use poly_cminus.MulWeaken.Exponent.{exponent-two-pow}
use poly_cminus.MulWeaken.Sound.{run_block-mul_weaken_rule, mul_weaken_rule-diverges}

-- %1 = %0 * 7; %2 = 9 * %1; the cell becomes %2.
abbrev products : List Inst
products =
    other 0 0 []
    ∷ binary 1 mul i32 (ref 0) (const_int i32 7)
    ∷ binary 2 mul i32 (const_int i32 9) (ref 1)
    ∷ other 3 1 (ref 2 ∷ [])
    ∷ []

run_block-mul_weaken_rule_example :
    (res : Rewritten) × (run_block mul_weaken_rule false [] 4 products ≡ some res)
    × Simulates cell 4 [] products res
run_block-mul_weaken_rule_example = run_block-mul_weaken_rule cell 4 0 products (
  omega arith,
  omega arith,
  tt,
  (
    omega arith,
    omega arith,
    (λ p. cc),
    (omega arith, tt),
    (tt, ((λ p. cc), omega arith, λ p. absurd (omega (arith, p)))),
    (
      omega arith,
      omega arith,
      (λ p. cc),
      (tt, ((λ p. cc), omega arith, λ p. absurd (omega (arith, p)))),
      (omega arith, tt),
      (omega arith, omega arith, (omega arith, tt), tt),
    ),
  ),
)

exponent-two-pow_example : exponent 32 (2 ^ 10) 0 ≡ some 10
exponent-two-pow_example = exponent-two-pow 32 10 0 (omega arith) (omega arith) (omega arith)

mul_weaken_rule-diverges_example :
    (is_power (shifted_const (2 ^ 31 - 1) exact) ≡ false)
    × (is_power (shifted_const (2 ^ 31 - 1) below) ≡ true)
    × ((fuel : ℕ) → exponent fuel (shifted_const (2 ^ 31 - 1) below) 0 ≡ none)
    × (mul_weaken_rule 4 mul i32 (ref 3) (const_int i32 (2 ^ 31 - 1)) ≡ none)
mul_weaken_rule-diverges_example = mul_weaken_rule-diverges 4 i32 (ref 3) refl

-- x * 7 becomes (x << 3) - x.
seven_weakened :
    run 2 ((binary 1 mul i32 (ref 0) (const_int i32 7) ∷ other 5 1 (ref 1 ∷ []) ∷ []) ∷ [])
    ≡ some (
        (binary 2 shl i32 (ref 0) (const_int i32 3)
          ∷ binary 3 sub i32 (ref 2) (ref 0)
          ∷ binary 1 mul i32 (ref 0) (const_int i32 7)
          ∷ other 5 1 (ref 3 ∷ [])
          ∷ [])
        ∷ [])
unfolding run poly_cminus.Ir.Rewrite.run_function exponent poly_cminus.MulWeaken.weakened
seven_weakened = refl
