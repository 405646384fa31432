-- ===== src/DeadCode/Tests.antt =====
-- DeadCode on `main` of a small module, in which a pure call and what uses it are dead.
use mathlib.Core.List.{Memᴰ}
use poly_cminus.Prelude.{
  ℕ, Bool, true, false, Option, none, some, [], ◌∷◌, ◌≡◌, refl, arith, ◌>>=◌, All-Memᴰ, lookup, not,
  ◌||◌,
}
use poly_cminus.Uses.{remove_use_of_ops, set_operand}
use poly_cminus.Uses.Consistent.Remove.{all_set}
use poly_cminus.Dominators.Search.{has}
use poly_cminus.IrCheck.Values.{every}
use poly_cminus.IrCheck.Checks.{instructions_of}
use poly_cminus.IrCheck.Lists.{has-Memᴰ, every-Memᴰ}
use poly_cminus.FuncInfo
use poly_cminus.FuncInfo.{Pure, Program}
use poly_cminus.FuncInfo.Sample.{sample, program}
use poly_cminus.Worklist.{work}
use poly_cminus.Types.{Ty}
use poly_cminus.DeadCode.{
  Marked, Constants, is_critical, is_def, mark, sweep_block, try_rewrite_ret, iterate, run,
}
use poly_cminus.DeadCode.Live.{Live, mark-Live}

abbrev pure : Pure
pure = lookup none ((0, some false) ∷ (1, some true) ∷ (2, some false) ∷ (3, some false) ∷ [])

abbrev constants : Constants
constants = record { zero_int = 8; zero_fp = 9; return_type = λ f. Ty.void }

-- The call of the pure function and what uses it are erased.
run_example :
    (run constants 2 8 program >>= λ p. some (p.values.instructions 10)) ≡ some (21 ∷ 23 ∷ [])
unfolding run iterate FuncInfo.run FuncInfo.trivial_mark FuncInfo.get_first_addr work mark
    sweep_block remove_use_of_ops try_rewrite_ret set_operand
run_example = refl

found :
    (i : ℕ) → Memᴰ i (instructions_of sample 0) → (b : Bool) × (is_critical pure program i ≡ some b)
found i m =
    All-Memᴰ (λ i. (b : Bool) × (is_critical pure program i ≡ some b)) (instructions_of sample 0)
      ((false, refl), ((true, refl), ((false, refl), ((true, refl), tt)))) m

within :
    (i def : ℕ)
    → Memᴰ i (instructions_of sample 0)
    → Memᴰ (some def) (sample.store.operands i)
    → is_def pure program i def ≡ true
    → Memᴰ def (instructions_of sample 0)
within i def m n e =
    let at_i =
      All-Memᴰ (λ i. every (stands i) (sample.store.operands i) ≡ true) (instructions_of sample 0)
        (refl, (refl, (refl, (refl, tt)))) m in
    let ok : stands i (some def) ≡ true = every-Memᴰ (stands i) (sample.store.operands i) at_i n in
    has-Memᴰ (instructions_of sample 0) def (rw e at ok)
  where
    stands : ℕ → Option ℕ → Bool
    stands i none = true
    stands i (some def) = not (is_def pure program i def) || has (instructions_of sample 0) def

no_null : (i : ℕ) → Memᴰ i (instructions_of sample 0) → all_set (sample.store.operands i) ≡ true
no_null i m =
    All-Memᴰ (λ i. all_set (sample.store.operands i) ≡ true) (instructions_of sample 0)
      (refl, (refl, (refl, (refl, tt)))) m

mark-Live_example :
    (marked : Marked) × (mark pure program 8 0 ≡ some marked)
    × ((i : ℕ) → Live pure program 0 i → marked i ≡ true)
    × ((i : ℕ) → Memᴰ i (instructions_of sample 0) → marked i ≡ true → Live pure program 0 i)
mark-Live_example = mark-Live pure program 8 0 found within no_null (omega arith)
