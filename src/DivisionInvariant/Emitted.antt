-- ===== src/DivisionInvariant/Emitted.antt =====
-- The emitted instructions compute the quotient and the remainder.
use poly_cminus.Prelude.{
  ℕ, ◌+◌, ◌-◌, ◌/◌, ◌%◌, ◌^◌, ◌<◌, ◌≡◌, ap, ◌∙◌, Bool, true, false, some, List, [], ◌∷◌, arith,
  bit_and,
}
use native.Mathlib.Nat.{div-le_self}
use poly_cminus.Ir.{add, sub, lshr, ashr, and_, i32, Value, const_int, ref, Inst, binary}
use poly_cminus.Ir.Word.{word_op, arithmetic_shift, signed_quotient, signed_remainder, magnitude}
use poly_cminus.Ir.Word.Laws.{word_op_lem}
use poly_cminus.Ir.Exec.{Env, External, update, value_of}
use poly_cminus.Ir.Simulation.{Below, Preserves}
use poly_cminus.Ir.Simulation.Emit.{
  value_of-update_fresh, value_of-update_self, Preserves-nil, Preserves-cons, emitting,
}
use poly_cminus.Ir.Simulation.Operands.{Below-mono}
use poly_cminus.DivisionInvariant.{shifted_quotient, negated_quotient, shifted_remainder}
use poly_cminus.DivisionInvariant.Shift.{
  IsExponent, quotient_by_shifts, negated_quotient_lem, remainder_by_shifts, mask-bound,
}

word_op-ashr :
    (x k : ℕ)
    → x < 2 ^ 32
    → k < 32
    → word_op 32 ashr x k ≡ some (arithmetic_shift (2 ^ 32) x (2 ^ k))
word_op-ashr x k h l = word_op_lem 32 ashr x k h (omega arith) ∙ ground arith

word_op-lshr : (x k : ℕ) → x < 2 ^ 32 → k < 32 → word_op 32 lshr x k ≡ some (x / 2 ^ k)
word_op-lshr x k h l = word_op_lem 32 lshr x k h (omega arith) ∙ ground arith

word_op-add : (x y : ℕ) → x < 2 ^ 32 → y < 2 ^ 32 → word_op 32 add x y ≡ some ((x + y) % 2 ^ 32)
word_op-add x y h l = word_op_lem 32 add x y h l

pub word_op-sub :
    (x y : ℕ) → x < 2 ^ 32 → y < 2 ^ 32 → word_op 32 sub x y ≡ some ((x + 2 ^ 32 - y) % 2 ^ 32)
word_op-sub x y h l = word_op_lem 32 sub x y h l

word_op-and_ : (x y : ℕ) → x < 2 ^ 32 → y < 2 ^ 32 → word_op 32 and_ x y ≡ some (bit_and x y)
word_op-and_ x y h l = word_op_lem 32 and_ x y h l

arithmetic_shift-bound : (x p : ℕ) → x < 2 ^ 32 → arithmetic_shift (2 ^ 32) x p < 2 ^ 32
arithmetic_shift-bound x p h = ground (arith, div-le_self x p)

value_of-i32 : (e : Env) (c : ℕ) → c < 2 ^ 32 → value_of e (const_int i32 c) ≡ c
value_of-i32 e c h = ground arith

module _ {W : Type 0} (ext : External W) (next : ℕ) (a : Value) (e : Env) (l : ℕ)
    (below_a : Below next a) (word : value_of e a < 2 ^ 32) (bounds : IsExponent l) where
  abbrev x : ℕ
  x = value_of e a

  abbrev z1 : ℕ → ℕ
  z1 j = arithmetic_shift (2 ^ 32) x (2 ^ j)

  abbrev z2 : ℕ → ℕ
  z2 j = z1 j / 2 ^ (32 - l)

  abbrev z3 : ℕ → ℕ
  z3 j = (x + z2 j) % 2 ^ 32

  abbrev e1 : ℕ → Env
  e1 j = update e next (z1 j)

  abbrev e2 : ℕ → Env
  e2 j = update (e1 j) (next + 1) (z2 j)

  abbrev e3 : ℕ → Env
  e3 j = update (e2 j) (next + 2) (z3 j)

  bound2 : (j : ℕ) → z2 j < 2 ^ 32
  bound2 j = omega (arith, arithmetic_shift-bound x (2 ^ j) word, div-le_self (z1 j) (2 ^ (32 - l)))

  a_in_e2 : (j : ℕ) → value_of (e2 j) a ≡ x
  a_in_e2 j =
      value_of-update_fresh (e1 j) (next + 1) (z2 j) a
        (Below-mono next (next + 1) a (omega arith) below_a)
      ∙ value_of-update_fresh e next (z1 j) a below_a

  a_in_e3 : (j : ℕ) → value_of (e3 j) a ≡ x
  a_in_e3 j =
      value_of-update_fresh (e2 j) (next + 2) (z3 j) a
        (Below-mono next (next + 2) a (omega arith) below_a)
      ∙ a_in_e2 j

  -- The first three instructions, which both rewrites share.
  biased-Preserves :
      (j z : ℕ) (v : Value) (skips : Bool) (is : List Inst)
      → j < 32
      → Preserves ext (next + 3) (e3 j) z (emitting v false skips is)
      → Preserves ext next e z (
          emitting v false skips (
            binary next ashr i32 a (const_int i32 j)
            ∷ binary (next + 1) lshr i32 (ref next) (const_int i32 (32 - l))
            ∷ binary (next + 2) add i32 a (ref (next + 1))
            ∷ is))
  biased-Preserves j z v skips is h s =
      Preserves-cons ext z v false skips next (next + 1) next ashr i32 a (const_int i32 j) _ e
        (z1 j) (omega arith) (omega arith)
        (rw (value_of-i32 e j (omega arith)) (word_op-ashr x j word h))
        (Preserves-cons ext z v false skips (next + 1) (next + 2) (next + 1) lshr i32 (ref next)
          (const_int i32 (32 - l)) _ (e1 j) (z2 j) (omega arith) (omega arith)
          (rw (value_of-update_self e next (z1 j), value_of-i32 (e1 j) (32 - l) (omega arith))
            (word_op-lshr (z1 j) (32 - l) (arithmetic_shift-bound x (2 ^ j) word)
              (omega (arith, bounds.0))))
          (Preserves-cons ext z v false skips (next + 2) (next + 3) (next + 2) add i32 a
            (ref (next + 1)) is (e2 j) (z3 j) (omega arith) (omega arith)
            (rw (value_of-update_self (e1 j) (next + 1) (z2 j), a_in_e2 j)
              (word_op-add x (z2 j) word (bound2 j)))
            s))

  abbrev z4 : ℕ
  z4 = arithmetic_shift (2 ^ 32) (z3 (l - 1)) (2 ^ l)

  quotient_step :
      word_op 32 ashr
        (value_of (e3 (l - 1)) (ref (next + 2)))
        (value_of (e3 (l - 1)) (const_int i32 l))
      ≡ some z4
  quotient_step =
      rw
        (
          value_of-update_self (e2 (l - 1)) (next + 2) (z3 (l - 1)),
          value_of-i32 (e3 (l - 1)) l (omega (arith, bounds.1)),
        )
        (word_op-ashr (z3 (l - 1)) l (omega arith) (omega (arith, bounds.1)))

  pub shifted_quotient-Preserves :
      Preserves ext next e
        (signed_quotient (2 ^ 32) x (2 ^ l))
        (emitting (ref (next + 3)) false false (shifted_quotient next a l))
  shifted_quotient-Preserves =
      let z = signed_quotient (2 ^ 32) x (2 ^ l) in
      biased-Preserves (l - 1) z (ref (next + 3)) false _ (omega (arith, bounds.1)) (
        Preserves-cons ext z (ref (next + 3)) false false (next + 3) (next + 4) (next + 3) ashr i32
          (ref (next + 2)) (const_int i32 l) [] (e3 (l - 1)) z4 (omega arith) (omega arith)
          quotient_step
          (Preserves-nil ext z (ref (next + 3)) false false (next + 4) _
            (value_of-update_self (e3 (l - 1)) (next + 3) z4 ∙ quotient_by_shifts l bounds x word)))

  pub negated_quotient-Preserves :
      Preserves ext next e
        (signed_quotient (2 ^ 32) x (2 ^ 32 - 2 ^ l))
        (emitting (ref (next + 4)) false false (negated_quotient next a l))
  negated_quotient-Preserves =
      let z = signed_quotient (2 ^ 32) x (2 ^ 32 - 2 ^ l) in
      let e4 = update (e3 (l - 1)) (next + 3) z4 in
      let same : z4 ≡ signed_quotient (2 ^ 32) x (2 ^ l) = quotient_by_shifts l bounds x word in
      biased-Preserves (l - 1) z (ref (next + 4)) false _ (omega (arith, bounds.1)) (
        Preserves-cons ext z (ref (next + 4)) false false (next + 3) (next + 4) (next + 3) ashr i32
          (ref (next + 2)) (const_int i32 l) _ (e3 (l - 1)) z4 (omega arith) (omega arith)
          quotient_step
          (Preserves-cons ext z (ref (next + 4)) false false (next + 4) (next + 5) (next + 4) sub
            i32 (const_int i32 0) (ref (next + 3)) [] e4 z (omega arith) (omega arith)
            (rw (value_of-update_self (e3 (l - 1)) (next + 3) z4, value_of-i32 e4 0 (omega arith))
              (word_op-sub 0 z4 (omega arith)
                  (arithmetic_shift-bound (z3 (l - 1)) (2 ^ l) (omega arith))
                ∙ ap (λ (k : ℕ). some ((0 + 2 ^ 32 - k) % 2 ^ 32)) same
                ∙ ap some (negated_quotient_lem l bounds x word)))
            (Preserves-nil ext z (ref (next + 4)) false false (next + 5) _
              (value_of-update_self e4 (next + 4) z))))

  pub shifted_remainder-Preserves :
      (d : ℕ)
      → magnitude (2 ^ 32) d ≡ 2 ^ l
      → Preserves ext next e
          (signed_remainder (2 ^ 32) x d)
          (emitting (ref (next + 4)) false true (shifted_remainder next a (2 ^ l) l))
  shifted_remainder-Preserves d size =
      let z = signed_remainder (2 ^ 32) x d in
      let mask = 2 ^ 32 - 1 - (2 ^ l - 1) in
      let masked = bit_and (z3 31) mask in
      let e4 = update (e3 31) (next + 3) masked in
      biased-Preserves 31 z (ref (next + 4)) true _ (omega arith) (
        Preserves-cons ext z (ref (next + 4)) false true (next + 3) (next + 4) (next + 3) and_ i32
          (ref (next + 2)) (const_int i32 mask) _ (e3 31) masked (omega arith) (omega arith)
          (rw
            (
              value_of-update_self (e2 31) (next + 2) (z3 31),
              value_of-i32 (e3 31) mask (omega arith),
            )
            (word_op-and_ (z3 31) mask (omega arith) (omega arith)))
          (Preserves-cons ext z (ref (next + 4)) false true (next + 4) (next + 5) (next + 4) sub i32
            a (ref (next + 3)) [] e4 z (omega arith) (omega arith)
            (rw (value_of-update_self (e3 31) (next + 3) masked, a_in_e4 masked)
              (word_op-sub x masked word (mask-bound l bounds (z3 31) (omega arith))
                ∙ ap some (remainder_by_shifts l bounds x d word size)))
            (Preserves-nil ext z (ref (next + 4)) false true (next + 5) _
              (value_of-update_self e4 (next + 4) z))))
    where
      a_in_e4 : (w : ℕ) → value_of (update (e3 31) (next + 3) w) a ≡ x
      a_in_e4 w =
          value_of-update_fresh (e3 31) (next + 3) w a
            (Below-mono next (next + 3) a (omega arith) below_a)
          ∙ a_in_e3 31
