-- ===== src/DivisionInvariant/Log.antt =====
-- What the logarithm of DivisionInvariant returns.
use poly_cminus.Prelude.{
  ℕ, zero, suc, ◌+◌, ◌-◌, ◌/◌, ◌%◌, ◌^◌, ◌≤◌, ◌<◌, ◌≡◌, ◌≢◌, refl, ap, ◌∙◌, ltb, ◌==◌,
  if◌then◌else◌, Bool, true, false, Bool-cases, inl, inr, ◌⊎◌, none, some, arith, two-pow-pos,
  two-pow-suc, two-pow_mono,
}
use native.Mathlib.Decide.{dec_lt, ℕ_discrete}
use poly_cminus.Ir.Word.{arithmetic_shift}
use poly_cminus.DivisionInvariant.{popcount, log_loop, mylog2}

-- Only zero has no bit, and only the powers of two have one.
popcount-zero : (bits d : ℕ) → d < 2 ^ bits → popcount bits d ≡ 0 → d ≡ 0
unfolding popcount
popcount-zero zero d h e = omega arith
popcount-zero (suc bits) d h e =
    let rest : d / 2 ≡ 0 =
      popcount-zero bits (d / 2) (omega (arith, two-pow-suc bits)) (omega arith) in
    omega arith

popcount-one : (bits d : ℕ) → d < 2 ^ bits → popcount bits d ≡ 1 → (p : ℕ) × (d ≡ 2 ^ p)
unfolding popcount
popcount-one zero d h e = absurd (omega arith)
popcount-one (suc bits) d h e = elim (ℕ_discrete (d % 2) 0) [
  | yes even ↦
      let (p, q) = popcount-one bits (d / 2) (omega (arith, two-pow-suc bits)) (omega arith) in
      (suc p, omega (arith, two-pow-suc p))
  | no odd ↦
      let rest : d / 2 ≡ 0 =
        popcount-zero bits (d / 2) (omega (arith, two-pow-suc bits)) (omega arith) in
      (0, omega arith)
]

popcount_of_zero : (bits : ℕ) → popcount bits 0 ≡ 0
unfolding popcount
popcount_of_zero zero = refl
popcount_of_zero (suc bits) = omega (arith, popcount_of_zero bits)

popcount-two-pow : (bits p : ℕ) → p < bits → popcount bits (2 ^ p) ≡ 1
unfolding popcount
popcount-two-pow zero p h = absurd (omega arith)
popcount-two-pow (suc bits) zero h = omega (arith, popcount_of_zero bits)
popcount-two-pow (suc bits) (suc p) h =
    let half : 2 ^ suc p / 2 ≡ 2 ^ p = omega (arith, two-pow-suc p) in
    omega (arith, two-pow-suc p, ap (popcount bits) half, popcount-two-pow bits p (omega arith))

log_step :
    (fuel d ret : ℕ)
    → d < 2 ^ 31
    → log_loop (suc fuel) d ret ≡ (if d / 2 == 0 then some ret else log_loop fuel (d / 2) (ret + 1))
unfolding log_loop
log_step fuel d ret h = let plain : arithmetic_shift (2 ^ 32) d 2 ≡ d / 2 = ground arith in rw plain

log_loop-floor :
    (fuel p d ret : ℕ)
    → d < 2 ^ 31
    → 2 ^ p ≤ d
    → d < 2 ^ suc p
    → p < fuel
    → log_loop fuel d ret ≡ some (ret + p)
log_loop-floor zero p d ret h lo hi l = absurd (omega arith)
log_loop-floor (suc fuel) zero d ret h lo hi l =
    let last : d / 2 ≡ 0 = omega arith in rw (log_step fuel d ret h, last) (ap some (omega arith))
log_loop-floor (suc fuel) (suc p) d ret h lo hi l =
    let more : (d / 2 == 0) ≡ false = ground (arith, two-pow-suc p, two-pow-pos p) in
    rw (log_step fuel d ret h, more)
      (log_loop-floor fuel p (d / 2) (ret + 1) (omega arith) (omega (arith, two-pow-suc p))
          (omega (arith, two-pow-suc (suc p), two-pow-suc p)) (omega arith)
        ∙ ap some (omega arith))

-- Every positive number lies between two powers of two.
floor : (f d : ℕ) → d ≤ f → 0 < d → (p : ℕ) × (2 ^ p ≤ d) × (d < 2 ^ suc p)
floor zero d h pos = absurd (omega arith)
floor (suc f) d h pos = elim (dec_lt 1 d) [
  | no small ↦ (0, omega arith, omega arith)
  | yes large ↦
      let (p, lo, hi) = floor f (d / 2) (omega arith) (omega arith) in
      (suc p, omega (arith, two-pow-suc p), omega (arith, two-pow-suc p, two-pow-suc (suc p)))
]

mylog2-start :
    (d : ℕ) (b : Bool) → ltb 1 (popcount 32 d) ≡ b → mylog2 d ≡ log_loop 32 d (if b then 1 else 0)
unfolding mylog2
mylog2-start d b e = ap (λ (b : Bool). log_loop 32 d (if b then 1 else 0)) e

below_exponent : (p k : ℕ) → 2 ^ p < 2 ^ k → p < k
below_exponent p k q = elim (dec_lt p k) [
  | yes l ↦ l
  | no ge ↦ absurd (omega (arith, two-pow_mono k p (omega arith)))
]

abbrev pub IsCeiling : ℕ → ℕ → Type 0
IsCeiling d l = (l ≤ 31) × (d ≤ 2 ^ l) × ((l ≡ 0) ⊎ (2 ^ (l - 1) < d))

-- For every positive `int` the logarithm is found, rounded up.
pub mylog2-IsCeiling : (d : ℕ) → 0 < d → d < 2 ^ 31 → (l : ℕ) × (mylog2 d ≡ some l) × IsCeiling d l
mylog2-IsCeiling d pos h =
    let (p, lo, hi) = floor d d (omega arith) pos in
    let small : p < 31 = below_exponent p 31 (omega arith) in
    let up : suc p - 1 ≡ p = omega arith in
    elim (Bool-cases (ltb 1 (popcount 32 d))) [
      | inl many ↦
          let apart : d ≢ 2 ^ p = λ e.
            many_bits d p many
              (omega (arith, popcount-two-pow 32 p (omega arith), ap (popcount 32) e)) in
          (
            suc p,
            mylog2-start d true many
                ∙ log_loop-floor 32 p d 1 h lo hi (omega arith)
                ∙ ap some (omega arith),
            (omega arith, omega arith, inr (rw up (omega arith))),
          )
      | inr few ↦
          let one : popcount 32 d ≡ 1 = one_bit d pos h few in
          let (q, e) = popcount-one 32 d (omega arith) one in
          let same : q ≡ p = exponent_unique p q d lo hi e in
          let power : d ≡ 2 ^ p = e ∙ ap (λ (k : ℕ). 2 ^ k) same in
          (
            p,
            mylog2-start d false few
                ∙ log_loop-floor 32 p d 0 h lo hi (omega arith)
                ∙ ap some (omega arith),
            (omega arith, omega arith, half_below p d power),
          )
    ]
  where
    many_bits : {A : Type 0} (d p : ℕ) → ltb 1 (popcount 32 d) ≡ true → popcount 32 d ≡ 1 → A
    many_bits d p m e = absurd (ground arith)

    one_bit : (d : ℕ) → 0 < d → d < 2 ^ 31 → ltb 1 (popcount 32 d) ≡ false → popcount 32 d ≡ 1
    one_bit d pos h few = elim (ℕ_discrete (popcount 32 d) 0) [
      | yes z ↦ absurd (omega (arith, popcount-zero 32 d (omega arith) z))
      | no nz ↦ ground arith
    ]

    exponent_unique : (p q d : ℕ) → 2 ^ p ≤ d → d < 2 ^ suc p → d ≡ 2 ^ q → q ≡ p
    exponent_unique p q d lo hi e =
        omega (arith, below_exponent q (suc p) (omega arith), not_below p q d lo e)
      where
        not_below : (p q d : ℕ) → 2 ^ p ≤ d → d ≡ 2 ^ q → p ≤ q
        not_below p q d lo e = elim (dec_lt q p) [
          | yes l ↦ absurd (omega (arith, two-pow_mono (suc q) p l, two-pow-suc q, two-pow-pos q))
          | no ge ↦ omega arith
        ]

    half_below : (p d : ℕ) → d ≡ 2 ^ p → (p ≡ 0) ⊎ (2 ^ (p - 1) < d)
    half_below zero d e = inl refl
    half_below (suc p) d e =
        let up : suc p - 1 ≡ p = omega arith in
        inr (rw up (omega (arith, two-pow-suc p, two-pow-pos p)))

-- A negative `int` stays negative, and its logarithm is never found.
pub log_loop-negative : (fuel d ret : ℕ) → 2 ^ 31 ≤ d → d < 2 ^ 32 → log_loop fuel d ret ≡ none
unfolding log_loop
log_loop-negative zero d ret h h' = refl
log_loop-negative (suc fuel) d ret h h' =
    ground (arith, log_loop-negative fuel (arithmetic_shift (2 ^ 32) d 2) (ret + 1))
