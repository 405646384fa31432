-- ===== src/MulWeaken/Weakens.antt =====
-- What MulWeaken emits for a constant next to a power of two, and its value.
use poly_cminus.Prelude.{
  ℕ, zero, suc, ◌+◌, ◌-◌, ◌*◌, ◌%◌, ◌^◌, ◌<◌, ◌≡◌, ◌≢◌, refl, ap, leb, ◌==◌, ◌||◌, true, false,
  Bool-cases, inl, inr, ◌⊎◌, Option, some, List, [], ◌∷◌, arith, sym, ◌∙◌,
}
use native.Mathlib.Decide.{ℕ_discrete}
use poly_cminus.Ir.{IntTy, i1, Value, const_int, ref, num_bits}
use poly_cminus.Ir.Exec.{Env, External, value_of}
use poly_cminus.Ir.Rewrite.{Rewrite, unchanged}
use poly_cminus.Ir.Simulation.{Below, IsShaped, Preserves, Origin}
use poly_cminus.Ir.Simulation.Contract.{
  unchanged-IsShaped, unchanged-Preserves, replace_by-IsShaped,
}
use poly_cminus.Ir.Simulation.Emit.{emitted-IsShaped}
use poly_cminus.MulWeaken.{
  Distance, exact, below, above, shifted_const, is_power, exponent, weakened, weaken, weaken_by,
}
use poly_cminus.MulWeaken.Exponent.{exponent-two-pow, exponent-lt, is_power-two-pow}
use poly_cminus.MulWeaken.Shift.{factor, weakened-Preserves}

-- A constant of i32 or i64, other than the largest `int`.
abbrev pub IsWeakenable : Value → Type 0
IsWeakenable (const_int t c) = (t ≢ i1) × (c < 2 ^ 32) × (c ≢ 2 ^ 31 - 1)
IsWeakenable (ref x) = Unit

-- One and two are powers.
is_power-small : (c : ℕ) → 0 < c → is_power c ≡ false → 2 < c
unfolding is_power
is_power-small c pos h = elim (ℕ_discrete c 1) [
  | yes e ↦ let impossible : true ≡ false = rw e at h in cc
  | no one ↦ elim (ℕ_discrete c 2) [
    | yes e ↦ let impossible : true ≡ false = rw e at h in cc
    | no two ↦ omega arith
  ]
]

exponent-pos : {A : Type 0} (s p : ℕ) → 1 < s → s ≡ 2 ^ p → p ≡ 0 → A
exponent-pos s p l e z = let one : 2 ^ p ≡ 2 ^ 0 = ap (λ (k : ℕ). 2 ^ k) z in absurd (omega arith)

module _ (next : ℕ) (t : IntTy) (v : Value) (c : ℕ) where
  abbrev Weakens : Option Rewrite → Type 0
  Weakens o =
      (o ≡ some unchanged)
      ⊎ ((d : Distance) × (p : ℕ) × (o ≡ some (weakened next t v d p))
          × (p < 31)
          × (p ≡ 0 → d ≡ exact)
          × (c ≡ factor d p))

  weaken-hit :
      (d : Distance) (rest : List Distance)
      → 0 < shifted_const c d
      → shifted_const c d < 2 ^ 31
      → is_power (shifted_const c d) ≡ true
      → (p : ℕ) × (weaken next t v c (d ∷ rest) ≡ some (weakened next t v d p))
        × (p < 31)
        × (shifted_const c d ≡ 2 ^ p)
  unfolding weaken
  weaken-hit d rest pos h e =
      let (p, same) = is_power-two-pow (shifted_const c d) pos (omega arith) e in
      let small : 2 ^ p < 2 ^ 31 = omega arith in
      let l = exponent-lt p 31 small in
      let found : exponent 32 (shifted_const c d) 0 ≡ some p =
        rw same (exponent-two-pow 32 p 0 small (omega arith) (omega arith)) in
      (p, rw (e, found), l, same)

  weaken-miss :
      (d : Distance) (rest : List Distance)
      → is_power (shifted_const c d) ≡ false
      → weaken next t v c (d ∷ rest) ≡ weaken next t v c rest
  unfolding weaken
  weaken-miss d rest e = rw e

  weaken-Weakens : 0 < c → c < 2 ^ 31 - 1 → Weakens (weaken next t v c (exact ∷ below ∷ above ∷ []))
  weaken-Weakens pos h = elim (Bool-cases (is_power c)) [
    | inl hit ↦
        let (p, e, l, same) = weaken-hit exact (below ∷ above ∷ []) pos (omega arith) hit in
        inr (exact, p, e, l, λ z. refl, same)
    | inr miss ↦ elim (Bool-cases (is_power (shifted_const c below))) [
      | inl hit ↦
          let (p, e, l, same) = weaken-hit below (above ∷ []) (omega arith) (omega arith) hit in
          let same' : c + 1 ≡ 2 ^ p = omega (arith, same) in
          let value : c ≡ 2 ^ p - 1 = omega arith in
          let e' = weaken-miss exact _ miss ∙ e in
          inr (below, p, e', l, exponent-pos (c + 1) p (omega arith) same', value)
      | inr miss' ↦ elim (Bool-cases (is_power (shifted_const c above))) [
        | inl hit ↦
            let large : 2 < c = is_power-small c pos miss in
            let (p, e, l, same) = weaken-hit above [] (omega arith) (omega arith) hit in
            let same' : c - 1 ≡ 2 ^ p = omega (arith, same) in
            let value : c ≡ 2 ^ p + 1 = omega arith in
            let e' = weaken-miss exact _ miss ∙ weaken-miss below _ miss' ∙ e in
            inr (above, p, e', l, exponent-pos (c - 1) p (omega arith) same', value)
        | inr miss'' ↦ inl (
            weaken-miss exact _ miss
            ∙ weaken-miss below _ miss'
            ∙ weaken-miss above [] miss''
            ∙ unfold weaken in refl)
      ]
    ]
  ]

  weaken_by-Weakens : c < 2 ^ 32 → c ≢ 2 ^ 31 - 1 → Weakens (weaken_by next t v c)
  unfolding weaken_by
  weaken_by-Weakens h ne = elim (Bool-cases (c == 0 || leb (2 ^ 31) c)) [
    | inl skip ↦ inl (rw skip)
    | inr looked ↦ rw looked (weaken-Weakens (ground arith) (ground arith))
  ]

module _ {W : Type 0} (ext : External W) (next : ℕ) (t : IntTy) (wide : t ≢ i1) where
  unfoldable pub OnMultiple : Value → ℕ → Rewrite → Type 0
  OnMultiple v c r =
      (e : Env) (x : ℕ)
      → Below next v
      → value_of e v < 2 ^ num_bits t
      → value_of e v * c % 2 ^ num_bits t ≡ x
      → Preserves ext next e x r

  weakened-IsShaped :
      (a b v : Value) (d : Distance) (p : ℕ)
      → IsWeakenable v
      → Origin next (next + 0) a b v
      → IsShaped IsWeakenable next a b (weakened next t v d p)
  unfolding weakened
  weakened-IsShaped a b v d zero good from =
      replace_by-IsShaped IsWeakenable next a b v true good from
  weakened-IsShaped a b v exact (suc p) good from =
      emitted-IsShaped IsWeakenable next next a b true false _ tt (omega arith) (omega arith)
  weakened-IsShaped a b v below (suc p) good from =
      emitted-IsShaped IsWeakenable next (next + 1) a b true false _ tt (omega arith) (omega arith)
  weakened-IsShaped a b v above (suc p) good from =
      emitted-IsShaped IsWeakenable next (next + 1) a b true false _ tt (omega arith) (omega arith)

  pub weaken_by_lem :
      (a b v : Value) (c : ℕ)
      → c < 2 ^ 32
      → c ≢ 2 ^ 31 - 1
      → IsWeakenable v
      → Origin next (next + 0) a b v
      → (r : Rewrite) × (weaken_by next t v c ≡ some r)
        × IsShaped IsWeakenable next a b r
        × OnMultiple v c r
  unfolding OnMultiple
  weaken_by_lem a b v c h ne good from = elim (weaken_by-Weakens next t v c h ne) [
    | inl e ↦ (
      unchanged,
      e,
      unchanged-IsShaped IsWeakenable next a b,
      λ env x _ _ _. unchanged-Preserves ext next env x,
    )
    | inr (d, p, e, l, z, value) ↦ (
      weakened next t v d p,
      e,
      weakened-IsShaped a b v d p good from,
      λ env x fresh word product.
          weakened-Preserves ext next t v env x wide fresh word d p l z
            (ap (λ (k : ℕ). value_of env v * k % 2 ^ num_bits t) (sym value) ∙ product),
    )
  ]
