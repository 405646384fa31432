-- ===== src/DivisionInvariant/Shift.antt =====
-- Division by a power of two by shifts, on the words of 32 bits.
use poly_cminus.Prelude.{
  ℕ, ◌+◌, ◌-◌, ◌*◌, ◌/◌, ◌%◌, ◌^◌, ◌≤◌, ◌<◌, ◌≡◌, sym, ap, ◌∙◌, ltb, if◌then◌else◌, arith, bit_and,
  two-pow-pos, two-pow_mono, two-pow-add, bit_and-mask,
}
use native.Mathlib.Decide.{dec_lt}
use native.Mathlib.Nat.{
  mul-add, add-mul, div-lt_iff_lt-mul, div-div-eq-div-mul, mul_comm, div-eq_of_lt-le, div-eq_of_lt,
  add-mul-div_right, mod-add-div', div-le_self, mod-lt, mod-eq_of_lt, add-mul-mod_self_right,
}
use poly_cminus.Ir.Word.{arithmetic_shift, signed_quotient, signed_remainder, magnitude}

-- A power of two P with P * Q = 2 ^ 32.
abbrev pub IsExponent : ℕ → Type 0
IsExponent l = (1 ≤ l) × (l ≤ 30)

module _ (l : ℕ) (bounds : IsExponent l) where
  abbrev P : ℕ
  P = 2 ^ l

  abbrev Q : ℕ
  Q = 2 ^ (32 - l)

  P*Q : P * Q ≡ 2 ^ 32
  P*Q =
      let sum : l + (32 - l) ≡ 32 = omega (arith, bounds.0, bounds.1) in
      sym (two-pow-add l (32 - l)) ∙ ap (λ (k : ℕ). 2 ^ k) sum

  P-bound : P ≤ 2 ^ 30
  P-bound = two-pow_mono l 30 bounds.1

  P-even : 2 ≤ P
  P-even = two-pow_mono 1 l bounds.0

  half_product : 2 ^ (l - 1) * Q ≡ 2 ^ 31
  half_product =
      let sum : l - 1 + (32 - l) ≡ 31 = omega (arith, bounds.0, bounds.1) in
      sym (two-pow-add (l - 1) (32 - l)) ∙ ap (λ (k : ℕ). 2 ^ k) sum

  -- The highest bits of a word that starts with ones.
  top_bits : (k : ℕ) → k < Q → (2 ^ 32 - 1 - k) / Q ≡ P - 1
  top_bits k h =
      div-eq_of_lt-le Q (omega (arith, P*Q, add-mul (P - 1) 1 Q, joined))
        (omega (arith, P*Q, joined))
    where
      joined : (P - 1 + 1) * Q ≡ P * Q
      joined = let e : P - 1 + 1 ≡ P = omega (arith, P-even) in ap (λ (k : ℕ). k * Q) e

  -- What is added before the shift: P - 1 for a negative dividend.
  abbrev bias : ℕ → ℕ
  bias x = if ltb x (2 ^ 31) then 0 else P - 1

  half_bias : (x : ℕ) → x < 2 ^ 32 → arithmetic_shift (2 ^ 32) x (2 ^ (l - 1)) / Q ≡ bias x
  half_bias x h = elim (dec_lt x (2 ^ 31)) [
    | yes plus ↦
        let none_left : x / 2 ^ (l - 1) / Q ≡ 0 =
          div-div-eq-div-mul x (2 ^ (l - 1)) Q
          ∙ ap (λ (k : ℕ). x / k) half_product
          ∙ div-eq_of_lt plus in
        ground arith
    | no minus ↦
        let small : (2 ^ 32 - 1 - x) / 2 ^ (l - 1) < Q =
          (div-lt_iff_lt-mul (two-pow-pos (l - 1))).1
            (omega (arith, half_product, mul_comm (2 ^ (l - 1)) Q)) in
        ground (arith, top_bits ((2 ^ 32 - 1 - x) / 2 ^ (l - 1)) small)
  ]

  sign_bias : (x : ℕ) → x < 2 ^ 32 → arithmetic_shift (2 ^ 32) x (2 ^ 31) / Q ≡ bias x
  sign_bias x h = elim (dec_lt x (2 ^ 31)) [
    | yes plus ↦ ground (arith, div-eq_of_lt (two-pow-pos (32 - l)))
    | no minus ↦ ground (arith, top_bits 0 (two-pow-pos (32 - l)))
  ]

  shift_biased :
      (x : ℕ)
      → x < 2 ^ 32
      → arithmetic_shift (2 ^ 32) ((x + bias x) % 2 ^ 32) P ≡ signed_quotient (2 ^ 32) x P
  shift_biased x h = elim (dec_lt x (2 ^ 31)) [
    | yes plus ↦ ground (arith, P-bound)
    | no minus ↦ elim (dec_lt (2 ^ 32 - x) P) [
      | yes near ↦
          let a : (2 ^ 32 - x) / P ≡ 0 = div-eq_of_lt near in
          let y : (x + (P - 1)) % 2 ^ 32 ≡ P - 1 - (2 ^ 32 - x) = omega (arith, P-bound) in
          let b : (P - 1 - (2 ^ 32 - x)) / P ≡ 0 = div-eq_of_lt (omega (arith, P-even)) in
          ground (arith, P-bound)
      | no far ↦
          let y : (x + (P - 1)) % 2 ^ 32 ≡ x + (P - 1) = omega (arith, P-bound) in
          let u : 2 ^ 32 - 1 - (x + (P - 1)) ≡ 2 ^ 32 - x - P = omega (arith, P-even) in
          let v : 2 ^ 32 - x - P + 1 * P ≡ 2 ^ 32 - x = omega arith in
          let quotient : (2 ^ 32 - x) / P ≡ (2 ^ 32 - x - P) / P + 1 =
            ap (λ (k : ℕ). k / P) (sym v) ∙ add-mul-div_right (2 ^ 32 - x - P) 1 (two-pow-pos l) in
          ground (arith, P-bound, P-even, div-le_self (2 ^ 32 - x) P)
    ]
  ]

  pub quotient_by_shifts :
      (x : ℕ)
      → x < 2 ^ 32
      → arithmetic_shift (2 ^ 32) ((x + arithmetic_shift (2 ^ 32) x (2 ^ (l - 1)) / Q) % 2 ^ 32) P
        ≡ signed_quotient (2 ^ 32) x P
  quotient_by_shifts x h = rw (half_bias x h) (shift_biased x h)

  pub negated_quotient_lem :
      (x : ℕ)
      → x < 2 ^ 32
      → (0 + 2 ^ 32 - signed_quotient (2 ^ 32) x P) % 2 ^ 32
        ≡ signed_quotient (2 ^ 32) x (2 ^ 32 - P)
  negated_quotient_lem x h =
      let back : 2 ^ 32 - (2 ^ 32 - P) ≡ P = omega (arith, P-bound) in
      ground (arith, P-bound, P-even, div-le_self (2 ^ 32 - x) P, div-le_self x P)

  mask_lem : (y : ℕ) → y < 2 ^ 32 → bit_and y (2 ^ 32 - 1 - (P - 1)) ≡ y - y % P
  mask_lem y h =
      let ones : 2 ^ 32 - 1 - (P - 1) ≡ P * (Q - 1) =
        omega (arith, P*Q, mul-add P (Q - 1) 1, split, P-even, mul_comm P 1) in
      let fits : y / P < Q =
        (div-lt_iff_lt-mul (two-pow-pos l)).1 (omega (arith, P*Q, mul_comm P Q)) in
      ap (bit_and y) ones
      ∙ bit_and-mask l (32 - l) y
      ∙ ap (λ (k : ℕ). P * k) (mod-eq_of_lt fits)
      ∙ omega (arith, mod-add-div' y P, mul_comm P (y / P))
    where
      split : P * (Q - 1 + 1) ≡ P * Q
      split = let e : Q - 1 + 1 ≡ Q = omega (arith, two-pow-pos (32 - l)) in ap (λ (k : ℕ). P * k) e

  high_part :
      (x : ℕ)
      → 2 ^ 31 ≤ x
      → x < 2 ^ 32
      → P - 1 - (2 ^ 32 - x) % P + (Q - (2 ^ 32 - x) / P) * P ≡ x + (P - 1)
  high_part x ge h =
      let w = (2 ^ 32 - x) / P in
      let fits : w < Q = (div-lt_iff_lt-mul (two-pow-pos l)).1 (omega (arith, P*Q, mul_comm P Q)) in
      let joined : (Q - w + w) * P ≡ Q * P = ap (λ (k : ℕ). k * P) (omega arith) in
      omega (
        arith,
        add-mul (Q - w) w P,
        joined,
        P*Q,
        mul_comm P Q,
        mod-add-div' (2 ^ 32 - x) P,
        mod-lt (2 ^ 32 - x) (two-pow-pos l),
      )

  mask_biased :
      (x d : ℕ)
      → x < 2 ^ 32
      → magnitude (2 ^ 32) d ≡ P
      → let y = (x + bias x) % 2 ^ 32 in
        (x + 2 ^ 32 - (y - y % P)) % 2 ^ 32 ≡ signed_remainder (2 ^ 32) x d
  mask_biased x d h size = elim (dec_lt x (2 ^ 31)) [
    | yes plus ↦
        let y : (x + 0) % 2 ^ 32 ≡ x = omega arith in
        let sized : x % P ≤ x = omega (arith, mod-add-div' x P) in ground (arith, size)
    | no minus ↦ elim (dec_lt (2 ^ 32 - x) P) [
      | yes near ↦
          let a : (2 ^ 32 - x) % P ≡ 2 ^ 32 - x = mod-eq_of_lt near in
          let y : (x + (P - 1)) % 2 ^ 32 ≡ P - 1 - (2 ^ 32 - x) = omega (arith, P-bound) in
          let b : (P - 1 - (2 ^ 32 - x)) % P ≡ P - 1 - (2 ^ 32 - x) =
            mod-eq_of_lt (omega (arith, P-even)) in
          ground (arith, P-bound, size)
      | no far ↦
          let r = (2 ^ 32 - x) % P in
          let y : (x + (P - 1)) % 2 ^ 32 ≡ x + (P - 1) = omega (arith, P-bound) in
          let rest : r < P = mod-lt (2 ^ 32 - x) (two-pow-pos l) in
          let low : (x + (P - 1)) % P ≡ P - 1 - r =
            ap (λ (k : ℕ). k % P) (sym (high_part x (omega arith) h))
            ∙ add-mul-mod_self_right (P - 1 - r) (Q - (2 ^ 32 - x) / P) P
            ∙ mod-eq_of_lt (omega (arith, P-even)) in
          ground (arith, P-bound, P-even, size)
    ]
  ]

  pub remainder_by_shifts :
      (x d : ℕ)
      → x < 2 ^ 32
      → magnitude (2 ^ 32) d ≡ P
      → (x
            + 2 ^ 32
            - bit_and
                ((x + arithmetic_shift (2 ^ 32) x (2 ^ 31) / Q) % 2 ^ 32)
                (2 ^ 32 - 1 - (P - 1)))
          % 2 ^ 32
        ≡ signed_remainder (2 ^ 32) x d
  remainder_by_shifts x d h size =
      rw (sign_bias x h, mask_lem ((x + bias x) % 2 ^ 32) (omega arith)) (mask_biased x d h size)

  pub mask-bound : (y : ℕ) → y < 2 ^ 32 → bit_and y (2 ^ 32 - 1 - (P - 1)) < 2 ^ 32
  mask-bound y h = omega (arith, mask_lem y h)
