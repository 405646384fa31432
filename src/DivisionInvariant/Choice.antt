-- ===== src/DivisionInvariant/Choice.antt =====
-- The assertions of choose_multiplier hold for every positive `int`, and the multiplier that it
-- finds divides.
use poly_cminus.Prelude.{
  ℕ, zero, suc, ◌+◌, ◌-◌, ◌*◌, ◌/◌, ◌%◌, ◌^◌, ◌≤◌, ◌<◌, ◌≡◌, refl, sym, ap, ◌∙◌, ◌⊎◌, ltb, leb,
  ◌==◌, ◌||◌, true, Bool-cases, inl, inr, lt→ltb, some, arith, two-pow-pos, two-pow-suc,
  two-pow_mono, two-pow-add,
}
use native.Mathlib.Nat.{
  mul-add, add-mul, lt-div-mul-add, div-mul-le_self, le-div_iff_mul-le, div-lt_iff_lt-mul,
  div-div-eq-div-mul, mul_comm, mul_assoc, mul_right_comm, mul-le-mul_left, mul-le-mul_right,
  le_of_mul-le-mul_right, lt_of_mul-lt-mul_right, div-eq_of_lt-le, mul-lt-mul_of_pos_right,
}
use poly_cminus.DivisionInvariant.{Multiplier, halve, asserted, choose_multiplier, mylog2}
use poly_cminus.DivisionInvariant.Log.{mylog2-IsCeiling, IsCeiling}

-- The bounds between which the quotient's numerator lies at a shift by `s`.
abbrev pub low_numerator : ℕ → ℕ
low_numerator s = 2 ^ (32 + s)

abbrev pub high_numerator : ℕ → ℕ
high_numerator s = 2 ^ (32 + s) + 2 ^ (s + 1)

-- Halving a quotient is dividing half the numerator.
half-div : (a a' d : ℕ) → a ≡ a' * 2 → a / d / 2 ≡ a' / d
half-div a a' d e =
    div-div-eq-div-mul a d 2
    ∙ ap (λ (k : ℕ). a / k) (mul_comm d 2)
    ∙ sym (div-div-eq-div-mul a 2 d)
    ∙ ap (λ (k : ℕ). k / d) (omega arith)

low_half : (s : ℕ) → low_numerator (suc s) ≡ low_numerator s * 2
low_half s = let e : 32 + suc s ≡ suc (32 + s) = omega arith in rw e (two-pow-suc (32 + s))

high_half : (s : ℕ) → high_numerator (suc s) ≡ high_numerator s * 2
high_half s =
    let e : suc s + 1 ≡ suc (s + 1) = omega arith in
    omega (arith, low_half s, ap (λ (k : ℕ). 2 ^ k) e, two-pow-suc (s + 1))

≤→leb : (a b : ℕ) → a ≤ b → leb a b ≡ true
≤→leb a b h = ground arith

-- What the loop keeps: the multiplier at the present shift, above the lower quotient.
pub record IsMultiplier (d l s : ℕ) (m : Multiplier) : Type 0 where
  pub same_l : m.l ≡ l
  pub quotient : m.mhigh ≡ high_numerator m.shpost / d
  pub above : low_numerator m.shpost / d < m.mhigh
  pub bounded : m.shpost ≤ s

halve-IsMultiplier :
    (d l s : ℕ)
    → low_numerator s / d < high_numerator s / d
    → IsMultiplier d l s (halve l (low_numerator s / d) (high_numerator s / d) s)
unfolding halve
halve-IsMultiplier d l zero h = record {
  same_l = refl;
  quotient = refl;
  above = h;
  bounded = omega arith;
}
halve-IsMultiplier d l (suc s) h =
    let lo = half-div (low_numerator (suc s)) (low_numerator s) d (low_half s) in
    let hi = half-div (high_numerator (suc s)) (high_numerator s) d (high_half s) in
    elim (Bool-cases (ltb (low_numerator s / d) (high_numerator s / d))) [
      | inl on ↦ rw (lo, hi, on) (looser (halve-IsMultiplier d l s (ground arith)))
      | inr off ↦
          rw (lo, hi, off)
            (record { same_l = refl; quotient = refl; above = h; bounded = omega arith })
    ]
  where
    looser : {m : Multiplier} → IsMultiplier d l s m → IsMultiplier d l (suc s) m
    looser r = record {
      same_l = r.same_l;
      quotient = r.quotient;
      above = r.above;
      bounded = omega (arith, r.bounded);
    }

gap : (d s : ℕ) → 0 < d → d ≤ 2 ^ (s + 1) → low_numerator s / d < high_numerator s / d
gap d s pos h =
    let room : (low_numerator s / d + 1) * d ≤ high_numerator s =
      omega (arith, add-mul (low_numerator s / d) 1 d, div-mul-le_self (low_numerator s) d) in
    let next : low_numerator s / d + 1 ≤ high_numerator s / d = (le-div_iff_mul-le pos).1 room in
    omega arith

-- The first halving is made whenever the logarithm is positive.
halve-first :
    (d l : ℕ)
    → 0 < d
    → d ≤ 2 ^ l
    → IsMultiplier d l (l - 1) (halve l (low_numerator l / d) (high_numerator l / d) l)
unfolding halve
halve-first d zero pos h = halve-IsMultiplier d 0 0 (gap d 0 pos (omega arith))
halve-first d (suc k) pos h =
    let lo = half-div (low_numerator (suc k)) (low_numerator k) d (low_half k) in
    let hi = half-div (high_numerator (suc k)) (high_numerator k) d (high_half k) in
    let e : k + 1 ≡ suc k = omega arith in
    let open_gap : low_numerator k / d < high_numerator k / d = gap d k pos (rw e h) in
    let on : ltb (low_numerator k / d) (high_numerator k / d) ≡ true = ground arith in
    let less : suc k - 1 ≡ k = omega arith in
    rw (lo, hi, on, less) (halve-IsMultiplier d (suc k) k open_gap)

module _ (d l : ℕ) (m : Multiplier) (pos : 0 < d) (ceiling : IsCeiling d l)
    (found : IsMultiplier d l (l - 1) m) where
  abbrev product : ℕ
  product = m.mhigh * d

  lower : low_numerator m.shpost < product
  lower = (div-lt_iff_lt-mul pos).0 found.above

  upper : product ≤ high_numerator m.shpost
  upper = rw (found.quotient) (div-mul-le_self (high_numerator m.shpost) d)

  low_value : low_numerator m.shpost ≡ 2 ^ 32 * 2 ^ m.shpost
  low_value = two-pow-add 32 m.shpost

  high_value : high_numerator m.shpost ≡ (2 ^ 32 + 2) * 2 ^ m.shpost
  high_value = omega (arith, low_value, two-pow-add m.shpost 1)

  post_bound : 2 ^ m.shpost ≤ 2 ^ 31
  post_bound = two-pow_mono m.shpost 31 (omega (arith, found.bounded, ceiling.0))

  asserted_lem : asserted d 31 m ≡ true
  unfolding asserted
  asserted_lem =
      let wrap_low : 2 ^ (32 + m.shpost) % 2 ^ 64 ≡ 2 ^ (32 + m.shpost) =
        omega (arith, low_value, post_bound) in
      let wrap_product : product % 2 ^ 64 ≡ product =
        omega (arith, upper, high_value, post_bound) in
      let tolerance : (2 ^ (32 + m.shpost) + 2 ^ (32 + m.shpost) / 2 ^ 31) % 2 ^ 64
          ≡ high_numerator m.shpost =
        omega (arith, low_value, high_value, post_bound) in
      let t1 : leb 1 d ≡ true = ground arith in
      let t2 : (m.l == 0 || ltb (2 ^ (m.l - 1)) d) ≡ true =
        rw (found.same_l) (tight l (ceiling.2)) in
      let t3 : leb d (2 ^ m.l) ≡ true = rw (found.same_l) (≤→leb _ _ ceiling.1) in
      let t4 : leb m.shpost m.l ≡ true = ≤→leb _ _ (omega (arith, found.bounded, found.same_l)) in
      let t5 : (m.shpost == 0 || leb (32 + m.shpost) (m.l + 31)) ≡ true =
        rw (found.same_l) (shifted m.shpost l found.bounded) in
      let t6 : ltb (2 ^ (32 + m.shpost)) product ≡ true = lt→ltb _ _ lower in
      let t7 : leb product (high_numerator m.shpost) ≡ true = ≤→leb _ _ upper in
      let t8 : leb 0 m.shpost ≡ true = ≤→leb _ _ (omega arith) in
      rw (wrap_low, wrap_product, tolerance, t1, t2, t3, t4, t5, t6, t7, t8)
    where
      tight : (l : ℕ) → (l ≡ 0) ⊎ (2 ^ (l - 1) < d) → (l == 0 || ltb (2 ^ (l - 1)) d) ≡ true
      tight l h = ground arith

      shifted : (s l : ℕ) → s ≤ l - 1 → (s == 0 || leb (32 + s) (l + 31)) ≡ true
      shifted s l h = ground arith

choose_step :
    (d l : ℕ) (m : Multiplier)
    → mylog2 d ≡ some l
    → halve l
        (2 ^ (32 + l) % 2 ^ 64 / d)
        ((2 ^ (32 + l) % 2 ^ 64 + 2 ^ (32 + l - 31) % 2 ^ 64) % 2 ^ 64 / d)
        l
      ≡ m
    → asserted d 31 m ≡ true
    → choose_multiplier d 31 ≡ some m
unfolding choose_multiplier
choose_step d l m e h c = rw (e, h, c)

-- For every positive `int` the logarithm is found, no assertion fails, and the multiplier lies
-- above the quotient.
pub choose_multiplier_lem :
    (d : ℕ)
    → 0 < d
    → d < 2 ^ 31
    → (l : ℕ) × (m : Multiplier) × (choose_multiplier d 31 ≡ some m)
      × (m.l ≡ l)
      × IsCeiling d l
      × IsMultiplier d l (l - 1) m
choose_multiplier_lem d pos h =
    let (l, e, ceiling) = mylog2-IsCeiling d pos h in
    let found = halve-first d l pos ceiling.1 in
    let m = halve l (low_numerator l / d) (high_numerator l / d) l in
    let small : 2 ^ l ≤ 2 ^ 31 = two-pow_mono l 31 ceiling.0 in
    let lo : 2 ^ (32 + l) % 2 ^ 64 ≡ low_numerator l = omega (arith, two-pow-add 32 l) in
    let up : 32 + l - 31 ≡ l + 1 = omega arith in
    let hi : (2 ^ (32 + l) % 2 ^ 64 + 2 ^ (32 + l - 31) % 2 ^ 64) % 2 ^ 64 ≡ high_numerator l =
      rw up (omega (arith, two-pow-add 32 l, two-pow-add l 1)) in
    let chosen : choose_multiplier d 31 ≡ some m =
      choose_step d l m e (rw (hi, lo) refl) (asserted_lem d l m pos ceiling found) in
    (l, m, chosen, found.same_l, ceiling, found)

module _ (n d s k : ℕ) (pos : 0 < d) (small : n < 2 ^ 31) (lower : low_numerator s < k * d)
    (upper : k * d ≤ high_numerator s) where
  quotient_lower : n / d * low_numerator s ≤ n * k
  quotient_lower =
      le_of_mul-le-mul_right
        (omega (
          arith,
          mul_right_comm (n / d) (low_numerator s) d,
          mul-le-mul_right (low_numerator s) (div-mul-le_self n d),
          mul-le-mul_left n (below_upper (low_numerator s) (k * d) lower),
          mul_assoc n k d,
        ))
        pos
    where
      below_upper : (a b : ℕ) → a < b → a ≤ b
      below_upper a b h = omega arith

  quotient_upper : n * k < (n / d + 1) * low_numerator s
  quotient_upper = lt_of_mul-lt-mul_right d (
      omega (
        arith,
        mul_assoc n k d,
        mul-le-mul_left n upper,
        mul-add n (low_numerator s) (2 ^ (s + 1)),
        mul-lt-mul_of_pos_right small (two-pow-pos (s + 1)),
        two-pow-add 32 s,
        two-pow-add s 1,
        mul_right_comm (n / d + 1) (low_numerator s) d,
        mul-le-mul_right (low_numerator s) above_n,
        add-mul n 1 (low_numerator s),
      ))
    where
      above_n : n + 1 ≤ (n / d + 1) * d
      above_n = omega (arith, lt-div-mul-add {a = n} pos, add-mul (n / d) 1 d)

-- For every positive `int` the logarithm is found and no assertion fails, and a multiplication by
-- the multiplier and a shift by 32 + shpost divide every number below 2 ^ 31.
pub choose_multiplier-divides :
    (d : ℕ)
    → 0 < d
    → d < 2 ^ 31
    → (m : Multiplier) × (choose_multiplier d 31 ≡ some m)
      × ((n : ℕ) → n < 2 ^ 31 → n * m.mhigh / 2 ^ (32 + m.shpost) ≡ n / d)
choose_multiplier-divides d pos h =
    let (l, m, chosen, same, ceiling, found) = choose_multiplier_lem d pos h in
    let lo = lower d l m pos ceiling found in
    let hi = upper d l m pos ceiling found in
    (
      m,
      chosen,
      λ n small.
          div-eq_of_lt-le (2 ^ (32 + m.shpost))
            (quotient_lower n d m.shpost m.mhigh pos small lo hi)
            (quotient_upper n d m.shpost m.mhigh pos small lo hi),
    )
