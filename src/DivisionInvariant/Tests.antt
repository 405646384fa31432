-- ===== src/DivisionInvariant/Tests.antt =====
-- The division pass at work on small blocks.
use poly_cminus.Prelude.{
  ℕ, ◌+◌, ◌-◌, ◌*◌, ◌/◌, ◌^◌, ◌<◌, ◌≡◌, refl, false, none, some, List, [], ◌∷◌, arith,
}
use poly_cminus.Ir.{sdiv, srem, i32, const_int, ref, Inst, binary, other}
use poly_cminus.Ir.Sample.{cell}
use poly_cminus.Ir.Rewrite.{Rewritten, run_block}
use poly_cminus.Ir.Simulation.{Simulates}
use poly_cminus.DivisionInvariant.{Multiplier, choose_multiplier, mylog2, log_loop, division_rule}
use poly_cminus.DivisionInvariant.Log.{IsCeiling, mylog2-IsCeiling, log_loop-negative}
use poly_cminus.DivisionInvariant.Choice.{choose_multiplier-divides}
use poly_cminus.DivisionInvariant.Sound.{run_block-division_rule}

-- %1 = %0 / -8; %2 = %1 % 4; the cell becomes %2.
abbrev divisions : List Inst
divisions =
    other 0 0 []
    ∷ binary 1 sdiv i32 (ref 0) (const_int i32 (2 ^ 32 - 8))
    ∷ binary 2 srem i32 (ref 1) (const_int i32 4)
    ∷ other 3 1 (ref 2 ∷ [])
    ∷ []

run_block-division_rule_example :
    (res : Rewritten) × (run_block division_rule false [] 4 divisions ≡ some res)
    × Simulates cell 4 [] divisions res
run_block-division_rule_example = run_block-division_rule cell 4 0 divisions (
  omega arith,
  omega arith,
  tt,
  (
    omega arith,
    omega arith,
    refl,
    (omega arith, tt),
    (tt, (omega arith, λ p. absurd (omega (arith, p)), λ p. cc)),
    (
      omega arith,
      omega arith,
      refl,
      (omega arith, tt),
      (tt, (omega arith, λ p. absurd (omega (arith, p)), λ p. cc)),
      (omega arith, omega arith, (omega arith, tt), tt),
    ),
  ),
)

choose_multiplier-divides_example :
    (m : Multiplier) × (choose_multiplier 7 31 ≡ some m)
    × ((n : ℕ) → n < 2 ^ 31 → n * m.mhigh / 2 ^ (32 + m.shpost) ≡ n / 7)
choose_multiplier-divides_example = choose_multiplier-divides 7 (omega arith) (omega arith)

mylog2-IsCeiling_example : (l : ℕ) × (mylog2 12 ≡ some l) × IsCeiling 12 l
mylog2-IsCeiling_example = mylog2-IsCeiling 12 (omega arith) (omega arith)

log_loop-negative_example : log_loop 40 (2 ^ 31) 0 ≡ none
log_loop-negative_example = log_loop-negative 40 (2 ^ 31) 0 (omega arith) (omega arith)

-- The multiplier that a 32-bit compiler uses for a division by seven.
multiplier_of_seven :
    choose_multiplier 7 31 ≡ some (record { mhigh = 2454267027; shpost = 2; l = 3 })
unfolding choose_multiplier
multiplier_of_seven = refl

logarithm_of_twelve : mylog2 12 ≡ some 4
unfolding mylog2
logarithm_of_twelve = refl
