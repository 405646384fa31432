-- ===== src/MulWeaken/Sound.antt =====
-- The replacements of MulWeaken have the values of the multiplications they replace.
use poly_cminus.Prelude.{
  ℕ, ◌+◌, ◌-◌, ◌*◌, ◌%◌, ◌^◌, ◌<◌, ◌≡◌, ◌≢◌, refl, ap, true, false, Bool-cases, inl, inr, Option,
  none, some, List, [], arith, ◌∙◌,
}
use native.Mathlib.Nat.{mul_comm}
use native.Mathlib.Decide.{dec_lt}
use poly_cminus.Ir.{mul, IntTy, i1, i32, i64, Value, const_int, ref, num_bits, Inst}
use poly_cminus.Ir.Word.{word_op}
use poly_cminus.Ir.Word.Laws.{word_op-eq-some}
use poly_cminus.Ir.Exec.{Env, External, value_of}
use poly_cminus.Ir.Rewrite.{Rewrite, Rewritten, unchanged, run_block}
use poly_cminus.Ir.Simulation.{
  Below, IsShaped, Preserves, IsSoundRule, IsNumbered, Simulates, Origin, left, right,
}
use poly_cminus.Ir.Simulation.Contract.{unchanged-IsShaped, unchanged-Preserves}
use poly_cminus.Ir.Simulation.Block.{run_block-Simulates}
use poly_cminus.MulWeaken.{
  exact, below, shifted_const, is_power, exponent, weaken, weaken_by, is_const, get_value,
  mul_weaken_rule,
}
use poly_cminus.MulWeaken.Exponent.{exponent-negative}
use poly_cminus.MulWeaken.Weakens.{IsWeakenable, OnMultiple, weaken_by_lem}

-- The value of a constant that is multiplied by.
value_of-get_value :
    (e : Env) (v : Value)
    → is_const v ≡ true
    → IsWeakenable v
    → get_value v < 2 ^ 31
    → value_of e v ≡ get_value v
value_of-get_value e (const_int i1 c) h g l = absurd (g.0 refl)
value_of-get_value e (const_int i32 c) h g l = ground arith
value_of-get_value e (const_int i64 c) h g l = ground arith
value_of-get_value e (ref x) h g l = cc

get_value-bounds :
    (v : Value)
    → is_const v ≡ true
    → IsWeakenable v
    → (get_value v < 2 ^ 32) × (get_value v ≢ 2 ^ 31 - 1)
get_value-bounds (const_int t c) h g = (g.1, g.2)
get_value-bounds (ref x) h g = cc

module _ {W : Type 0} (ext : External W) (next : ℕ) (t : IntTy) (wide : t ≢ i1) (a b : Value) where
  abbrev Sound : Option Rewrite → Type 0
  Sound o =
      (r : Rewrite) × (o ≡ some r)
      × IsShaped IsWeakenable next a b r
      × ((e : Env) (x : ℕ)
          → Below next a
          → Below next b
          → word_op (num_bits t) mul (value_of e a) (value_of e b) ≡ some x
          → Preserves ext next e x r)

  Sound-unchanged : Sound (some unchanged)
  Sound-unchanged = (
    unchanged,
    refl,
    unchanged-IsShaped IsWeakenable next a b,
    λ env x _ _ _. unchanged-Preserves ext next env x,
  )

  -- The factors of the multiplication are `v` and the constant `k`.
  abbrev Factors : Value → Value → Type 0
  Factors v k =
      (e : Env) (x : ℕ)
      → Below next a
      → Below next b
      → word_op (num_bits t) mul (value_of e a) (value_of e b) ≡ some x
      → Below next v
        × (value_of e v < 2 ^ num_bits t)
        × (value_of e v * value_of e k % 2 ^ num_bits t ≡ x)

  weaken_by-Sound :
      (v k : Value)
      → is_const k ≡ true
      → IsWeakenable k
      → IsWeakenable v
      → Origin next (next + 0) a b v
      → Factors v k
      → Sound (weaken_by next t v (get_value k))
  weaken_by-Sound v k const good good_v from factors = elim (dec_lt (get_value k) (2 ^ 31)) [
    | no ge ↦
        let skipped : weaken_by next t v (get_value k) ≡ some unchanged =
          unfold weaken_by in ground arith in
        rw skipped Sound-unchanged
    | yes l ↦
        let (small, ne) = get_value-bounds k const good in
        let (r, e, shape, multiple) =
          weaken_by_lem ext next t wide a b v (get_value k) small ne good_v from in
        (
          r,
          e,
          shape,
          λ env x below_a below_b product.
              let (fresh, word, value) = factors env x below_a below_b product in
              unfold OnMultiple in
              multiple env x fresh word (rw (value_of-get_value env k const good l) at value),
        )
  ]

  mul-Sound : IsWeakenable a → IsWeakenable b → Sound (mul_weaken_rule next mul t a b)
  unfolding mul_weaken_rule
  mul-Sound ga gb = elim (Bool-cases (is_const a)) [
    | inl const_a ↦ rw const_a (
        weaken_by-Sound b a const_a ga gb (right refl) (λ e x _ below_b h.
          let (p, q, eq) = word_op-eq-some (num_bits t) mul (value_of e a) (value_of e b) h in
          (
            below_b,
            q,
            ap (λ (k : ℕ). k % 2 ^ num_bits t) (mul_comm (value_of e b) (value_of e a)) ∙ cc,
          )))
    | inr var_a ↦ elim (Bool-cases (is_const b)) [
      | inl const_b ↦
          rw (var_a, const_b)
            (weaken_by-Sound a b const_b gb ga (left refl) (λ e x below_a _ h.
              let (p, q, eq) = word_op-eq-some (num_bits t) mul (value_of e a) (value_of e b) h in
              (below_a, p, cc)))
      | inr var_b ↦ rw (var_a, var_b) Sound-unchanged
    ]
  ]

mul_weaken_rule-IsSoundRule :
    {W : Type 0} (ext : External W) → IsSoundRule ext (λ op t. t ≢ i1) IsWeakenable mul_weaken_rule
mul_weaken_rule-IsSoundRule ext next mul t a b wide ga gb = mul-Sound ext next t wide a b ga gb
mul_weaken_rule-IsSoundRule ext next op t a b wide ga gb = (
  unchanged,
  unfold mul_weaken_rule in refl,
  unchanged-IsShaped IsWeakenable next a b,
  λ env x _ _ _. unchanged-Preserves ext next env x,
)

-- A pass over a numbered block of i32 and i64 instructions, in which no constant is the largest
-- `int`, returns, and whatever the old code does the new code does: the same world, and in the
-- replacement of each identity the same value.
pub run_block-mul_weaken_rule :
    {W : Type 0} (ext : External W) (n k : ℕ) (is : List Inst)
    → IsNumbered (λ op t. t ≢ i1) IsWeakenable n k is
    → (res : Rewritten) × (run_block mul_weaken_rule false [] n is ≡ some res)
      × Simulates ext n [] is res
run_block-mul_weaken_rule ext n k is num =
    run_block-Simulates ext (λ op t. t ≢ i1) IsWeakenable mul_weaken_rule n k is
      (mul_weaken_rule-IsSoundRule ext) (λ x. tt) num

-- At a multiplication by 2 ^ 31 - 1 the constant is no power, the constant plus one, the negative
-- 2 ^ 31, is taken for one, and whatever the fuel the loop never finds its exponent: the pass does
-- not return.
pub mul_weaken_rule-diverges :
    (next : ℕ) (t : IntTy) (v : Value)
    → is_const v ≡ false
    → (is_power (shifted_const (2 ^ 31 - 1) exact) ≡ false)
      × (is_power (shifted_const (2 ^ 31 - 1) below) ≡ true)
      × ((fuel : ℕ) → exponent fuel (shifted_const (2 ^ 31 - 1) below) 0 ≡ none)
      × (mul_weaken_rule next mul t v (const_int t (2 ^ 31 - 1)) ≡ none)
unfolding mul_weaken_rule weaken_by weaken is_power
mul_weaken_rule-diverges next t v h =
    let never : (fuel : ℕ) → exponent fuel (2 ^ 31) 0 ≡ none =
      λ fuel. exponent-negative fuel (2 ^ 31) 0 (omega arith) (omega arith) in
    (refl, refl, never, rw (h, never 32) refl)
