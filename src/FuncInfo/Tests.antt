-- ===== src/FuncInfo/Tests.antt =====
-- The pure functions of a small module.
use mathlib.Core.List.{Memᴰ}
use poly_cminus.Prelude.{ℕ, Bool, true, false, some, ◌≡◌, refl, ◌⊎◌, arith, ◌>>=◌, All, All-Memᴰ}
use poly_cminus.Dominators.Search.{has}
use poly_cminus.IrCheck.Lists.{has-Memᴰ}
use poly_cminus.Uses.{Use}
use poly_cminus.IrCheck.Values.{is_instruction}
use poly_cminus.FuncInfo.{Pure, trivial_mark, get_first_addr, run, is_pure_function}
use poly_cminus.FuncInfo.Sample.{sample, program}
use poly_cminus.FuncInfo.Sound.{Impure, run-Impure}
use poly_cminus.Worklist.{work}

pure_example : (run program 2 8 >>= λ pure. is_pure_function pure 1) ≡ some true
unfolding run trivial_mark get_first_addr work
pure_example = refl

impure_example : (run program 2 8 >>= λ pure. is_pure_function pure 3) ≡ some false
unfolding run trivial_mark get_first_addr work
impure_example = refl

found : (f : ℕ) → Memᴰ f sample.functions → (pure : Bool) × (trivial_mark program 2 f ≡ some pure)
unfolding trivial_mark get_first_addr
found f m =
    All-Memᴰ (λ f. (pure : Bool) × (trivial_mark program 2 f ≡ some pure)) sample.functions
      ((false, refl), ((true, refl), ((false, refl), ((true, refl), tt)))) m

within :
    (g : ℕ) (entry : Use)
    → Memᴰ g sample.functions
    → Memᴰ entry (sample.store.use_list g)
    → is_instruction (sample.class_of entry.user) ≡ true
    → Memᴰ (program.get_function entry.user) sample.functions
within g entry mg me e = has-Memᴰ sample.functions (program.get_function entry.user) (
    All-Memᴰ (λ (entry : Use). has sample.functions (program.get_function entry.user) ≡ true)
      (sample.store.use_list g)
      (All-Memᴰ
        (λ g.
          All (λ (entry : Use). has sample.functions (program.get_function entry.user) ≡ true)
            (sample.store.use_list g))
        sample.functions (tt, ((refl, tt), ((refl, tt), ((refl, tt), tt)))) mg)
      me)

run-Impure_example :
    (pure : Pure) × (run program 2 8 ≡ some pure)
    × ((f : ℕ)
        → Memᴰ f sample.functions
        → (Impure program 2 f × (is_pure_function pure f ≡ some false))
          ⊎ ((¬ (Impure program 2 f)) × (is_pure_function pure f ≡ some true)))
run-Impure_example = run-Impure program 2 8 found within (omega arith)
