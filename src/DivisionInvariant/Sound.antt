-- ===== src/DivisionInvariant/Sound.antt =====
-- The replacements of DivisionInvariant have the values of the divisions and remainders they
-- replace.
use poly_cminus.Prelude.{
  ℕ, ◌+◌, ◌^◌, ◌≤◌, ◌<◌, ◌≡◌, ◌≢◌, refl, ap, ◌==◌, true, false, eq→==, ne→==, some, none, List, [],
  arith, subst,
}
use native.Mathlib.Nat.{mod-one}
use native.Mathlib.Decide.{ℕ_discrete}
use poly_cminus.Ir.{sdiv, srem, IntTy, i32, Value, const_int, ref, Inst}
use poly_cminus.Ir.Word.{signed_remainder, magnitude}
use poly_cminus.Ir.Exec.{External, value_of}
use poly_cminus.Ir.Rewrite.{Rewritten, unchanged, run_block}
use poly_cminus.Ir.Simulation.{Preserves, IsSoundRule, IsNumbered, Simulates, constant}
use poly_cminus.Ir.Simulation.Contract.{
  unchanged-IsShaped, unchanged-Preserves, replace_by, replace_by-IsShaped, replace_by-Preserves,
}
use poly_cminus.Ir.Simulation.Emit.{emitting, emitted-IsShaped}
use poly_cminus.Ir.Simulation.Block.{run_block-Simulates}
use poly_cminus.DivisionInvariant.{
  Multiplier, choose_multiplier, remaindered, divide_by_invariant, replace_srem, division_rule,
  shifted_remainder, mylog2,
}
use poly_cminus.DivisionInvariant.Choice.{choose_multiplier_lem}
use poly_cminus.DivisionInvariant.Emitted.{shifted_remainder-Preserves}
use poly_cminus.DivisionInvariant.Owed.{
  IsDivisor, IsDividable, Owes, Owes-unchanged, operands, remainder_value, IsExponent-bounds,
  magnitude_bounds, Sound,
}
use poly_cminus.DivisionInvariant.Quotients.{divide_by_invariant-Sound}

module _ {W : Type 0} (ext : External W) (next : ℕ) (a : Value) (ty : IntTy) (c : ℕ)
    (good_a : IsDivisor a) (good : IsDivisor (const_int ty c)) where
  Owes-remainder :
      (l : ℕ)
      → c ≢ 0
      → magnitude (2 ^ 32) c ≢ 1
      → l ≤ 31
      → Owes ext next a ty c good_a good srem (remaindered next a (magnitude (2 ^ 32) c) l)
  Owes-remainder l nz ne h = elim (ℕ_discrete (magnitude (2 ^ 32) c) (2 ^ l)) [
    | yes power ↦
        let t : (2 ^ l == 2 ^ l) ≡ true = ground arith in
        rw (power, t)
          (
            emitted-IsShaped IsDivisor next (next + 4) a (const_int ty c) false true _ tt
                (omega arith) (omega arith),
            λ e x below_a _ r.
                let (word, value) = operands ext next a ty c good_a good srem e x r in
                let bounds = IsExponent-bounds ext next a ty c good_a good l ne power h in
                subst
                  (λ (z : ℕ).
                    Preserves ext next e z
                      (emitting (ref (next + 4)) false true (shifted_remainder next a (2 ^ l) l)))
                  (remainder_value ext next a ty c good_a good e x nz value)
                  (shifted_remainder-Preserves ext next a e l below_a word bounds c power),
          )
    | no other ↦
        let t : (magnitude (2 ^ 32) c == 2 ^ l) ≡ false = ne→== _ _ other in
        rw t (Owes-unchanged ext next a ty c good_a good srem)
  ]

  Owes-no-remainder :
      c ≢ 0
      → magnitude (2 ^ 32) c ≡ 1
      → Owes ext next a ty c good_a good srem (replace_by (const_int i32 0) true)
  Owes-no-remainder nz one = (
    replace_by-IsShaped IsDivisor next a (const_int ty c) (const_int i32 0) true
        (omega arith, omega arith, λ p. cc) (constant i32 0 refl),
    λ e x _ _ h.
        let (word, value) = operands ext next a ty c good_a good srem e x h in
        replace_by-Preserves ext next e x (const_int i32 0) true (
          none_left (value_of e a) word one
            (remainder_value ext next a ty c good_a good e x nz value)),
  )
    where
      none_left :
          (y : ℕ) {x : ℕ}
          → y < 2 ^ 32
          → magnitude (2 ^ 32) c ≡ 1
          → signed_remainder (2 ^ 32) y c ≡ x
          → 0 ≡ x
      none_left y h one q = ground (arith, mod-one (magnitude (2 ^ 32) y))

  replace_srem-Sound : Sound ext next a ty c good_a good srem (replace_srem next a c)
  replace_srem-Sound = elim (ℕ_discrete c 0) [
    | yes nil ↦ (
      unchanged,
      rw nil (unfold replace_srem in refl),
      Owes-unchanged ext next a ty c good_a good srem,
    )
    | no nz ↦ elim (ℕ_discrete (magnitude (2 ^ 32) c) 1) [
      | yes one ↦ (replace_by (const_int i32 0) true, one_step nz one, Owes-no-remainder nz one)
      | no ne ↦
          let (pos, small) = magnitude_bounds ext next a ty c good_a good nz in
          let (l, m, chosen, same, ceiling, found) =
            choose_multiplier_lem (magnitude (2 ^ 32) c) pos small in
          (
            remaindered next a (magnitude (2 ^ 32) c) l,
            found_step m l nz ne chosen same,
            Owes-remainder l nz ne ceiling.0,
          )
    ]
  ]
    where
      one_step :
          c ≢ 0
          → magnitude (2 ^ 32) c ≡ 1
          → replace_srem next a c ≡ some (replace_by (const_int i32 0) true)
      one_step nz one =
          unfold replace_srem in
          let t : (c == 0) ≡ false = ne→== c 0 nz in
          let u : (magnitude (2 ^ 32) c == 1) ≡ true = eq→== _ 1 one in rw (t, u)

      found_step :
          (m : Multiplier) (l : ℕ)
          → c ≢ 0
          → magnitude (2 ^ 32) c ≢ 1
          → choose_multiplier (magnitude (2 ^ 32) c) 31 ≡ some m
          → m.l ≡ l
          → replace_srem next a c ≡ some (remaindered next a (magnitude (2 ^ 32) c) l)
      found_step m l nz ne e same =
          unfold replace_srem in
          let t : (c == 0) ≡ false = ne→== c 0 nz in
          let u : (magnitude (2 ^ 32) c == 1) ≡ false = ne→== _ 1 ne in
          rw (t, u, e) (ap (λ (k : ℕ). some (remaindered next a (magnitude (2 ^ 32) c) k)) same)

division_rule-IsSoundRule :
    {W : Type 0} (ext : External W) → IsSoundRule ext IsDividable IsDivisor division_rule
unfolding division_rule
division_rule-IsSoundRule ext next sdiv t a (const_int u c) i32_only ga gb =
    let (r, e, (shape, preserves)) = divide_by_invariant-Sound ext next a u c ga gb in
    (r, e, shape, λ env x pa pb h. preserves env x pa pb (rw i32_only at h))
division_rule-IsSoundRule ext next srem t a (const_int u c) i32_only ga gb =
    let (r, e, (shape, preserves)) = replace_srem-Sound ext next a u c ga gb in
    (r, e, shape, λ env x pa pb h. preserves env x pa pb (rw i32_only at h))
division_rule-IsSoundRule ext next op t a v _ _ _ = (
  unchanged,
  refl,
  unchanged-IsShaped IsDivisor next a v,
  λ env x _ _ _. unchanged-Preserves ext next env x,
)

-- A pass over a numbered block, in which divisions and remainders are of type i32 and no constant
-- is the smallest `int`, returns (no assertion fails), and whatever the old code does the new code
-- does: the same world, and in the replacement of each identity the same value.
pub run_block-division_rule :
    {W : Type 0} (ext : External W) (n k : ℕ) (is : List Inst)
    → IsNumbered IsDividable IsDivisor n k is
    → (res : Rewritten) × (run_block division_rule false [] n is ≡ some res)
      × Simulates ext n [] is res
run_block-division_rule ext n k is num =
    run_block-Simulates ext IsDividable IsDivisor division_rule n k is
      (division_rule-IsSoundRule ext) (λ x. tt) num

-- The logarithm of the smallest `int` is never found, and a division by it makes the pass loop.
pub divide_by_invariant-diverges :
    (next : ℕ) (a : Value) → divide_by_invariant next a (2 ^ 31) ≡ none
unfolding divide_by_invariant choose_multiplier mylog2
divide_by_invariant-diverges next a = refl
