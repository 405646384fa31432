-- ===== src/DivisionInvariant/Owed.antt =====
-- What a replacement of DivisionInvariant owes, and the values of quotients and remainders.
use poly_cminus.Prelude.{ℕ, zero, suc, ◌^◌, ◌≤◌, ◌<◌, ◌≡◌, ◌≢◌, refl, ap, ◌∙◌, Option, some, arith}
use native.Mathlib.Decide.{ℕ_discrete}
use poly_cminus.Ir.{OpId, sdiv, srem, IntTy, i1, i32, i64, Value, const_int, ref}
use poly_cminus.Ir.Word.{word_op, apply_op, signed_quotient, signed_remainder, magnitude}
use poly_cminus.Ir.Word.Laws.{word_op-eq-some}
use poly_cminus.Ir.Exec.{Env, External, value_of}
use poly_cminus.Ir.Rewrite.{Rewrite, unchanged}
use poly_cminus.Ir.Simulation.{Below, IsShaped, Preserves}
use poly_cminus.Ir.Simulation.Contract.{unchanged-IsShaped, unchanged-Preserves}
use poly_cminus.DivisionInvariant.Shift.{IsExponent}

-- A constant other than the smallest `int`.
abbrev pub IsDivisor : Value → Type 0
IsDivisor (const_int t c) = (c < 2 ^ 32) × (c ≢ 2 ^ 31) × (t ≡ i1 → c < 2)
IsDivisor (ref x) = Unit

-- Divisions and remainders are of type i32.
abbrev pub IsDividable : OpId → IntTy → Type 0
IsDividable sdiv t = t ≡ i32
IsDividable srem t = t ≡ i32
IsDividable op t = Unit

pub value_of-const :
    (e : Env) (t : IntTy) (c : ℕ)
    → IsDivisor (const_int t c)
    → value_of e (const_int t c) < 2 ^ 32
    → value_of e (const_int t c) ≡ c
value_of-const e i1 c good h = let small = good.2 refl in ground arith
value_of-const e i32 c good h = ground arith
value_of-const e i64 c good h = ground arith

module _ {W : Type 0} (ext : External W) (next : ℕ) (a : Value) (t : IntTy) (c : ℕ)
    (good_a : IsDivisor a) (good : IsDivisor (const_int t c)) where
  abbrev pub b : Value
  b = const_int t c

  -- What is owed for the operator `op` of i32.
  abbrev pub Owes : OpId → Rewrite → Type 0
  Owes op r =
      IsShaped IsDivisor next a b r
      × ((e : Env) (x : ℕ)
          → Below next a
          → Below next b
          → word_op 32 op (value_of e a) (value_of e b) ≡ some x
          → Preserves ext next e x r)

  pub Owes-unchanged : (op : OpId) → Owes op unchanged
  Owes-unchanged op =
      (unchanged-IsShaped IsDivisor next a b, λ env x _ _ _. unchanged-Preserves ext next env x)

  pub operands :
      (op : OpId) (e : Env) (x : ℕ)
      → word_op 32 op (value_of e a) (value_of e b) ≡ some x
      → (value_of e a < 2 ^ 32) × (apply_op 32 op (value_of e a) c ≡ some x)
  operands op e x h =
      let (p, q, r) = word_op-eq-some 32 op (value_of e a) (value_of e b) h in
      (p, rw (value_of-const e t c good q) at r)

  pub quotient_value :
      (e : Env) (x : ℕ)
      → c ≢ 0
      → apply_op 32 sdiv (value_of e a) c ≡ some x
      → signed_quotient (2 ^ 32) (value_of e a) c ≡ x
  quotient_value e x nz h = ground arith

  pub remainder_value :
      (e : Env) (x : ℕ)
      → c ≢ 0
      → apply_op 32 srem (value_of e a) c ≡ some x
      → signed_remainder (2 ^ 32) (value_of e a) c ≡ x
  remainder_value e x nz h = ground arith

  -- A power of two other than one.
  pub IsExponent-bounds :
      (l : ℕ) → magnitude (2 ^ 32) c ≢ 1 → magnitude (2 ^ 32) c ≡ 2 ^ l → l ≤ 31 → IsExponent l
  IsExponent-bounds zero ne e h = absurd (ne e)
  IsExponent-bounds (suc l) ne e h = (
    omega arith,
    elim (ℕ_discrete l 30) [
      | yes top ↦
          let size : magnitude (2 ^ 32) c ≡ 2 ^ 31 = e ∙ ap (λ (k : ℕ). 2 ^ suc k) top in
          absurd (ground (arith, good.0, good.1))
      | no low ↦ omega arith
    ],
  )

  pub magnitude_bounds : c ≢ 0 → (0 < magnitude (2 ^ 32) c) × (magnitude (2 ^ 32) c < 2 ^ 31)
  magnitude_bounds nz = (ground (arith, good.0), ground (arith, good.0, good.1))

  abbrev pub Sound : OpId → Option Rewrite → Type 0
  Sound op o = (r : Rewrite) × (o ≡ some r) × Owes op r
