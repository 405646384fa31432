-- ===== src/DivisionInvariant/Quotients.antt =====
-- The replacements of divisions have their values.
use poly_cminus.Prelude.{
  ℕ, ◌+◌, ◌-◌, ◌%◌, ◌^◌, ◌≤◌, ◌<◌, ◌≡◌, ◌≢◌, refl, sym, ap, ◌∙◌, ◌⊎◌, inl, inr, leb, ◌==◌, true,
  false, Bool-cases, eq→==, ne→==, some, [], ◌∷◌, arith, two-pow-pos, subst,
}
use native.Mathlib.Nat.{div-one}
use native.Mathlib.Decide.{ℕ_discrete}
use poly_cminus.Ir.{sub, sdiv, IntTy, i32, Value, const_int, ref, binary}
use poly_cminus.Ir.Word.{word_op, signed_quotient, magnitude}
use poly_cminus.Ir.Exec.{External, value_of}
use poly_cminus.Ir.Rewrite.{unchanged}
use poly_cminus.Ir.Simulation.{Preserves, left}
use poly_cminus.Ir.Simulation.Contract.{replace_by-IsShaped, replace_by-Preserves}
use poly_cminus.Ir.Simulation.Emit.{
  value_of-update_self, Preserves-nil, Preserves-cons, emitting, emitted-IsShaped,
}
use poly_cminus.DivisionInvariant.{
  Multiplier, choose_multiplier, divided, divide_by_invariant, shifted_quotient, negated_quotient,
}
use poly_cminus.DivisionInvariant.Choice.{choose_multiplier_lem}
use poly_cminus.DivisionInvariant.Shift.{IsExponent}
use poly_cminus.DivisionInvariant.Emitted.{
  shifted_quotient-Preserves, negated_quotient-Preserves, word_op-sub,
}
use poly_cminus.DivisionInvariant.Owed.{
  IsDivisor, Owes, Owes-unchanged, operands, quotient_value, IsExponent-bounds, magnitude_bounds,
  Sound,
}

module _ {W : Type 0} (ext : External W) (next : ℕ) (a : Value) (ty : IntTy) (c : ℕ)
    (good_a : IsDivisor a) (good : IsDivisor (const_int ty c)) where
  Owes-one : c ≡ 1 → Owes ext next a ty c good_a good sdiv (emitting a false false [])
  Owes-one one = (
    replace_by-IsShaped IsDivisor next a (const_int ty c) a false good_a (left refl),
    λ e x _ _ h.
        let (word, value) = operands ext next a ty c good_a good sdiv e x h in
        let quotient = quotient_value ext next a ty c good_a good e x (ground arith) value in
        replace_by-Preserves ext next e x a false (whole (value_of e a) word (rw one at quotient)),
  )
    where
      whole : (y : ℕ) {x : ℕ} → y < 2 ^ 32 → signed_quotient (2 ^ 32) y 1 ≡ x → y ≡ x
      whole y h q = ground (arith, div-one y, div-one (2 ^ 32 - y))

  Owes-minus-one :
      c ≡ 2 ^ 32 - 1
      → Owes ext next a ty c good_a good sdiv
          (emitting (ref next) false false (binary next sub i32 (const_int i32 0) a ∷ []))
  Owes-minus-one one = (
    emitted-IsShaped IsDivisor next next a (const_int ty c) false false _ tt (omega arith)
        (omega arith),
    λ e x below_a _ h.
        let (word, value) = operands ext next a ty c good_a good sdiv e x h in
        let quotient = quotient_value ext next a ty c good_a good e x (ground arith) value in
        Preserves-cons ext x (ref next) false false next (next + 1) next sub i32 (const_int i32 0) a
          [] e x (omega arith) (omega arith) (negation (value_of e a) word (rw one at quotient))
          (Preserves-nil ext x (ref next) false false (next + 1) _ (value_of-update_self e next x)),
  )
    where
      negation :
          (y : ℕ) {x : ℕ}
          → y < 2 ^ 32
          → signed_quotient (2 ^ 32) y (2 ^ 32 - 1) ≡ x
          → word_op 32 sub 0 y ≡ some x
      negation y h q = word_op-sub 0 y (omega arith) h ∙ ap some (difference ∙ q)
        where
          difference : (0 + 2 ^ 32 - y) % 2 ^ 32 ≡ signed_quotient (2 ^ 32) y (2 ^ 32 - 1)
          difference = ground (arith, div-one y, div-one (2 ^ 32 - y))

  Owes-power :
      (l : ℕ)
      → IsExponent l
      → c ≡ 2 ^ l
      → Owes ext next a ty c good_a good sdiv
          (emitting (ref (next + 3)) false false (shifted_quotient next a l))
  Owes-power l bounds power = (
    emitted-IsShaped IsDivisor next (next + 3) a (const_int ty c) false false _ tt (omega arith)
        (omega arith),
    λ e x below_a _ h.
        let (word, value) = operands ext next a ty c good_a good sdiv e x h in
        let quotient =
          quotient_value ext next a ty c good_a good e x (ground (arith, two-pow-pos l)) value in
        subst
          (λ (z : ℕ).
            Preserves ext next e z
              (emitting (ref (next + 3)) false false (shifted_quotient next a l)))
          (rw power at quotient) (shifted_quotient-Preserves ext next a e l below_a word bounds),
  )

  Owes-minus-power :
      (l : ℕ)
      → IsExponent l
      → c ≡ 2 ^ 32 - 2 ^ l
      → c ≢ 0
      → Owes ext next a ty c good_a good sdiv
          (emitting (ref (next + 4)) false false (negated_quotient next a l))
  Owes-minus-power l bounds power nz = (
    emitted-IsShaped IsDivisor next (next + 4) a (const_int ty c) false false _ tt (omega arith)
        (omega arith),
    λ e x below_a _ h.
        let (word, value) = operands ext next a ty c good_a good sdiv e x h in
        let quotient = quotient_value ext next a ty c good_a good e x nz value in
        subst
          (λ (z : ℕ).
            Preserves ext next e z
              (emitting (ref (next + 4)) false false (negated_quotient next a l)))
          (rw power at quotient) (negated_quotient-Preserves ext next a e l below_a word bounds),
  )

  -- The five outcomes of `divide_by_invariant`.
  divided-cases :
      (l : ℕ)
      → c ≢ 0
      → l ≤ 31
      → ((c ≡ 1) × (divided next a c l ≡ emitting a false false []))
        ⊎ ((c ≡ 2 ^ 32 - 1)
            × (divided next a c l
                ≡ emitting (ref next) false false (binary next sub i32 (const_int i32 0) a ∷ [])))
        ⊎ ((c ≡ 2 ^ l)
            × IsExponent l
            × (divided next a c l
                ≡ emitting (ref (next + 3)) false false (shifted_quotient next a l)))
        ⊎ ((c ≡ 2 ^ 32 - 2 ^ l)
            × IsExponent l
            × (divided next a c l
                ≡ emitting (ref (next + 4)) false false (negated_quotient next a l)))
        ⊎ (divided next a c l ≡ unchanged)
  divided-cases l nz h = elim (ℕ_discrete (magnitude (2 ^ 32) c) 1) [
    | yes one ↦
        let t : (magnitude (2 ^ 32) c == 1) ≡ true = eq→== _ _ one in
        elim (ℕ_discrete c 1) [
          | yes plus ↦ inl (plus, rw (t, eq→== c 1 plus))
          | no minus ↦ inr (inl (ground (arith, good.0), rw (t, ne→== c 1 minus)))
        ]
    | no large ↦
        let t : (magnitude (2 ^ 32) c == 1) ≡ false = ne→== _ _ large in
        elim (ℕ_discrete (magnitude (2 ^ 32) c) (2 ^ l)) [
          | yes power ↦
              let u : (magnitude (2 ^ 32) c == 2 ^ l) ≡ true = eq→== _ _ power in
              let bounds = IsExponent-bounds ext next a ty c good_a good l large power h in
              elim (Bool-cases (leb (2 ^ 31) c)) [
                | inr plus ↦ inr (inr (inl (ground arith, bounds, rw (t, u, plus))))
                | inl minus ↦
                    inr (inr (inr (inl (ground (arith, good.0), bounds, rw (t, u, minus)))))
              ]
          | no other ↦
              let u : (magnitude (2 ^ 32) c == 2 ^ l) ≡ false = ne→== _ _ other in
              inr (inr (inr (inr (rw (t, u)))))
        ]
  ]

  divided-Owes :
      (l : ℕ) → c ≢ 0 → l ≤ 31 → Owes ext next a ty c good_a good sdiv (divided next a c l)
  divided-Owes l nz h = elim (divided-cases l nz h) [
    | inl (one, e) ↦ subst (Owes ext next a ty c good_a good sdiv) (sym e) (Owes-one one)
    | inr (inl (one, e)) ↦
        subst (Owes ext next a ty c good_a good sdiv) (sym e) (Owes-minus-one one)
    | inr (inr (inl (power, bounds, e))) ↦
        subst (Owes ext next a ty c good_a good sdiv) (sym e) (Owes-power l bounds power)
    | inr (inr (inr (inl (power, bounds, e)))) ↦
        subst (Owes ext next a ty c good_a good sdiv) (sym e) (Owes-minus-power l bounds power nz)
    | inr (inr (inr (inr e))) ↦
        subst (Owes ext next a ty c good_a good sdiv) (sym e)
          (Owes-unchanged ext next a ty c good_a good sdiv)
  ]

  pub divide_by_invariant-Sound :
      Sound ext next a ty c good_a good sdiv (divide_by_invariant next a c)
  divide_by_invariant-Sound = elim (ℕ_discrete c 0) [
    | yes nil ↦ (
      unchanged,
      rw nil (unfold divide_by_invariant in refl),
      Owes-unchanged ext next a ty c good_a good sdiv,
    )
    | no nz ↦
        let (pos, small) = magnitude_bounds ext next a ty c good_a good nz in
        let (l, m, chosen, same, ceiling, found) =
          choose_multiplier_lem (magnitude (2 ^ 32) c) pos small in
        (divided next a c l, found_step m l nz chosen same, divided-Owes l nz ceiling.0)
  ]
    where
      found_step :
          (m : Multiplier) (l : ℕ)
          → c ≢ 0
          → choose_multiplier (magnitude (2 ^ 32) c) 31 ≡ some m
          → m.l ≡ l
          → divide_by_invariant next a c ≡ some (divided next a c l)
      found_step m l nz e same =
          unfold divide_by_invariant in
          let t : (c == 0) ≡ false = ne→== c 0 nz in
          rw (t, e) (ap (λ (k : ℕ). some (divided next a c k)) same)
