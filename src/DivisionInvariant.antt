-- ===== src/DivisionInvariant.antt =====
-- include/Optimize/DivisionInvariant.hh: divisions and remainders by constants that are powers of
-- two, positive or negative, become shifts.
pub mod Log
pub mod Choice
pub mod Shift
mod Emitted
pub mod Owed
pub mod Quotients
pub mod Sound
mod Tests
use poly_cminus.Prelude.{
  ℕ, zero, suc, ◌+◌, ◌-◌, ◌*◌, ◌/◌, ◌%◌, ◌^◌, Bool, true, false, ltb, leb, ◌==◌, ◌&&◌, ◌||◌,
  if◌then◌else◌, Option, none, some, ◌>>=◌, List, [], ◌∷◌,
}
use poly_cminus.Ir.{
  OpId, add, sub, sdiv, srem, lshr, ashr, and_, IntTy, i32, Value, const_int, ref, Inst, binary,
}
use poly_cminus.Ir.Word.{arithmetic_shift, magnitude}
use poly_cminus.Ir.Rewrite.{Rule, Rewrite, unchanged, run_function}

-- `__builtin_popcount`, on the lowest bits.
unfoldable pub popcount : ℕ → ℕ → ℕ
popcount zero d = 0
popcount (suc bits) d = d % 2 + popcount bits (d / 2)

-- `while (d >>= 1) ret++;` on fuel, for an `int`.
unfoldable pub log_loop : ℕ → ℕ → ℕ → Option ℕ
log_loop zero d ret = none
log_loop (suc fuel) d ret =
    let d' = arithmetic_shift (2 ^ 32) d 2 in
    let rest = log_loop fuel d' (ret + 1) in if d' == 0 then some ret else rest

unfoldable pub mylog2 : ℕ → Option ℕ
unfolding popcount log_loop
mylog2 d = log_loop 32 d (if ltb 1 (popcount 32 d) then 1 else 0)

-- The output parameters of `choose_multiplier`.
pub record Multiplier : Type 0 where
  pub mhigh : ℕ
  pub shpost : ℕ
  pub l : ℕ

-- `while ((mlow / 2 < mhigh / 2) and shpost > 0)`
unfoldable pub halve : ℕ → ℕ → ℕ → ℕ → Multiplier
halve l mlow mhigh zero = record { mhigh = mhigh; shpost = 0; l = l }
halve l mlow mhigh (suc shpost) =
    let rest = halve l (mlow / 2) (mhigh / 2) shpost in
    if ltb (mlow / 2) (mhigh / 2)
    then rest
    else record { mhigh = mhigh; shpost = suc shpost; l = l }

-- The assertions at the end of `choose_multiplier`, for N = 32 and 64-bit arithmetic.
unfoldable pub asserted : ℕ → ℕ → Multiplier → Bool
asserted d prec m =
    leb 1 d
    && (leb 1 prec && leb prec 32)
    && ((m.l == 0 || ltb (2 ^ (m.l - 1)) d) && leb d (2 ^ m.l))
    && (leb 0 m.shpost && leb m.shpost m.l)
    && (m.shpost == 0 || leb (32 + m.shpost) (m.l + prec))
    && (ltb (2 ^ (32 + m.shpost) % 2 ^ 64) (m.mhigh * d % 2 ^ 64)
        && leb (m.mhigh * d % 2 ^ 64)
            ((2 ^ (32 + m.shpost) % 2 ^ 64 + 2 ^ (32 + m.shpost) % 2 ^ 64 / 2 ^ prec) % 2 ^ 64))

-- `none` when the logarithm does not end or an assertion fails.
unfoldable pub choose_multiplier : ℕ → ℕ → Option Multiplier
unfolding mylog2 halve asserted
choose_multiplier d prec = mylog2 d >>= λ l.
    (let m =
        halve l (2 ^ (32 + l) % 2 ^ 64 / d)
          ((2 ^ (32 + l) % 2 ^ 64 + 2 ^ (32 + l - prec) % 2 ^ 64) % 2 ^ 64 / d) l in
      if asserted d prec m then some m else none)

-- The instructions that `divide_by_invariant` leaves for a division by d or -d, d = 2 ^ l.
abbrev pub shifted_quotient : ℕ → Value → ℕ → List Inst
shifted_quotient next lhs l =
    binary next ashr i32 lhs (const_int i32 (l - 1))
    ∷ binary (next + 1) lshr i32 (ref next) (const_int i32 (32 - l))
    ∷ binary (next + 2) add i32 lhs (ref (next + 1))
    ∷ binary (next + 3) ashr i32 (ref (next + 2)) (const_int i32 l)
    ∷ []

abbrev pub negated_quotient : ℕ → Value → ℕ → List Inst
negated_quotient next lhs l =
    binary next ashr i32 lhs (const_int i32 (l - 1))
    ∷ binary (next + 1) lshr i32 (ref next) (const_int i32 (32 - l))
    ∷ binary (next + 2) add i32 lhs (ref (next + 1))
    ∷ binary (next + 3) ashr i32 (ref (next + 2)) (const_int i32 l)
    ∷ binary (next + 4) sub i32 (const_int i32 0) (ref (next + 3))
    ∷ []

abbrev pub divided : ℕ → Value → ℕ → ℕ → Rewrite
divided next lhs d l =
    if magnitude (2 ^ 32) d == 1
    then if d == 1
      then record { emitted = []; new_val = some lhs; kept = false; skips = false }
      else record {
        emitted = binary next sub i32 (const_int i32 0) lhs ∷ [];
        new_val = some (ref next);
        kept = false;
        skips = false;
      }
    else if magnitude (2 ^ 32) d == 2 ^ l
    then if leb (2 ^ 31) d
      then record {
        emitted = negated_quotient next lhs l;
        new_val = some (ref (next + 4));
        kept = false;
        skips = false;
      }
      else record {
        emitted = shifted_quotient next lhs l;
        new_val = some (ref (next + 3));
        kept = false;
        skips = false;
      }
    else unchanged

unfoldable pub divide_by_invariant : ℕ → Value → ℕ → Option Rewrite
unfolding choose_multiplier
divide_by_invariant next lhs d =
    if d == 0
    then some unchanged
    else (choose_multiplier (magnitude (2 ^ 32) d) 31 >>= λ m. some (divided next lhs d (m.l)))

-- The instructions of `replace_srem`; `abs` is the absolute value of the divisor.
abbrev pub shifted_remainder : ℕ → Value → ℕ → ℕ → List Inst
shifted_remainder next lhs abs l =
    binary next ashr i32 lhs (const_int i32 31)
    ∷ binary (next + 1) lshr i32 (ref next) (const_int i32 (32 - l))
    ∷ binary (next + 2) add i32 lhs (ref (next + 1))
    ∷ binary (next + 3) and_ i32 (ref (next + 2)) (const_int i32 (2 ^ 32 - 1 - (abs - 1)))
    ∷ binary (next + 4) sub i32 lhs (ref (next + 3))
    ∷ []

-- Behind the erased instruction the iterator is moved once more.
abbrev pub remaindered : ℕ → Value → ℕ → ℕ → Rewrite
remaindered next lhs abs l =
    if abs == 2 ^ l
    then record {
      emitted = shifted_remainder next lhs abs l;
      new_val = some (ref (next + 4));
      kept = false;
      skips = true;
    }
    else unchanged

unfoldable pub replace_srem : ℕ → Value → ℕ → Option Rewrite
unfolding choose_multiplier
replace_srem next lhs rhs_val =
    if rhs_val == 0
    then some unchanged
    else if magnitude (2 ^ 32) rhs_val == 1
    then some
        (record { emitted = []; new_val = some (const_int i32 0); kept = true; skips = false })
    else (choose_multiplier (magnitude (2 ^ 32) rhs_val) 31 >>= λ m.
        some (remaindered next lhs (magnitude (2 ^ 32) rhs_val) (m.l)))

unfoldable pub division_rule : Rule
unfolding divide_by_invariant replace_srem
division_rule next sdiv t lhs (const_int _ c) = divide_by_invariant next lhs c
division_rule next srem t lhs (const_int _ c) = replace_srem next lhs c
division_rule next op t a b = some unchanged

-- `run`, on one function.
unfoldable pub run : ℕ → List (List Inst) → Option (List (List Inst))
unfolding division_rule
run = run_function division_rule
