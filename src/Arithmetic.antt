-- ===== src/Arithmetic.antt =====
-- src/utils.cc: add_i32, sub_i32, mul_i32 and sdiv_i32, which build an operation of i32 or find
-- its value.
pub mod Sound
mod Tests
use poly_cminus.Prelude.{
  ℕ, ◌+◌, ◌-◌, ◌*◌, ◌%◌, ◌^◌, Bool, true, false, ◌==◌, ◌&&◌, ◌||◌, if◌then◌else◌, Option, none,
  some, List, [], ◌∷◌,
}
use poly_cminus.Ir.{
  OpId, add, sub, mul, sdiv, IntTy, i1, i32, i64, Value, const_int, ref, Inst, binary,
}
use poly_cminus.Ir.Word.{signed_quotient}
use poly_cminus.UselessOperationEli.{is_const_int}

-- The instructions inserted, and the value returned.
pub record Built : Type 0 where
  pub emitted : List Inst
  pub val : Value

abbrev pub found : Value → Built
found v = record { emitted = []; val = v }

abbrev pub created : ℕ → OpId → Value → Value → Built
created next op v1 v2 = record { emitted = binary next op i32 v1 v2 ∷ []; val = ref next }

-- Two constants, or something else.
abbrev pub both_const : Value → Value → (ℕ → ℕ → Option Built) → Option Built → Option Built
both_const (const_int t c) (const_int u d) f o = f c d
both_const v1 v2 f o = o

abbrev pub is_i32_type : IntTy → Bool
is_i32_type i32 = true
is_i32_type t = false

-- `none` is the exit on operands of other types, or what C++ leaves undefined. The type of a
-- value that is no constant is looked up.
module _ (type_of : ℕ → IntTy) where
  abbrev pub is_i32 : Value → Bool
  is_i32 (const_int t c) = is_i32_type t
  is_i32 (ref x) = is_i32_type (type_of x)

  abbrev pub of_i32 : Value → Value → Option Built → Option Built
  of_i32 v1 v2 o = if is_i32 v1 && is_i32 v2 then o else none

  -- The versions without an insertion point.
  unfoldable pub add_i32 : ℕ → Value → Value → Option Built
  add_i32 next v1 v2 = of_i32 v1 v2 (
      both_const v1 v2 (λ c d. some (found (const_int i32 ((c + d) % 2 ^ 32))))
        (some (created next add v1 v2)))

  unfoldable pub sub_i32 : ℕ → Value → Value → Option Built
  sub_i32 next v1 v2 = of_i32 v1 v2 (
      both_const v1 v2 (λ c d. some (found (const_int i32 ((c + 2 ^ 32 - d) % 2 ^ 32))))
        (some (created next sub v1 v2)))

  unfoldable pub mul_i32 : ℕ → Value → Value → Option Built
  mul_i32 next v1 v2 = of_i32 v1 v2 (
      both_const v1 v2 (λ c d. some (found (const_int i32 (c * d % 2 ^ 32))))
        (some (created next mul v1 v2)))

  -- The versions with one, which know the neutral and absorbing constants.
  unfoldable pub add_i32_at : ℕ → Value → Value → Option Built
  add_i32_at next v1 v2 = of_i32 v1 v2 (
      both_const v1 v2 (λ c d. some (found (const_int i32 ((c + d) % 2 ^ 32))))
        (if is_const_int 0 v1
          then some (found v2)
          else if is_const_int 0 v2
          then some (found v1)
          else some (created next add v1 v2)))

  unfoldable pub sub_i32_at : ℕ → Value → Value → Option Built
  sub_i32_at next v1 v2 = of_i32 v1 v2 (
      both_const v1 v2 (λ c d. some (found (const_int i32 ((c + 2 ^ 32 - d) % 2 ^ 32))))
        (if is_const_int 0 v2 then some (found v1) else some (created next sub v1 v2)))

  unfoldable pub mul_i32_at : ℕ → Value → Value → Option Built
  mul_i32_at next v1 v2 = of_i32 v1 v2 (
      both_const v1 v2 (λ c d. some (found (const_int i32 (c * d % 2 ^ 32))))
        (if is_const_int 1 v1
          then some (found v2)
          else if is_const_int 1 v2
          then some (found v1)
          else if is_const_int 0 v1 || is_const_int 0 v2
          then some (found (const_int i32 0))
          else some (created next mul v1 v2)))

  -- The quotient of constants is undefined for zero, and for the smallest `int` by -1.
  unfoldable pub sdiv_i32_at : ℕ → Value → Value → Option Built
  sdiv_i32_at next v1 v2 = of_i32 v1 v2 (
      both_const v1 v2
        (λ c d.
          if d == 0 || (c == 2 ^ 31 && d == 2 ^ 32 - 1)
          then none
          else some (found (const_int i32 (signed_quotient (2 ^ 32) c d))))
        (if is_const_int 1 v2
          then some (found v1)
          else if is_const_int 0 v1
          then some (found (const_int i32 0))
          else some (created next sdiv v1 v2)))
