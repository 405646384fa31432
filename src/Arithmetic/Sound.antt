-- ===== src/Arithmetic/Sound.antt =====
-- The operations that are built have the value of the operation.
use poly_cminus.Prelude.{
  ℕ, ◌+◌, ◌-◌, ◌*◌, ◌%◌, ◌^◌, ◌<◌, ◌≡◌, refl, sym, ◌∙◌, Bool, true, false, Bool-cases, inl, inr,
  ◌==◌, ◌&&◌, ◌||◌, if◌then◌else◌, Option, none, some, [], arith,
}
use poly_cminus.Ir.{OpId, add, sub, mul, sdiv, IntTy, i32, Value, const_int, ref}
use poly_cminus.Ir.Word.{word_op, signed_quotient, apply_op}
use poly_cminus.Ir.Word.Laws.{word_op-eq-some}
use poly_cminus.Ir.Word.Neutral.{
  zero-add_word, add-zero_word, sub-zero_word, one-mul_word, mul-one_word, zero-mul_word,
  mul-zero_word, sdiv-one_word, zero-sdiv_word,
}
use poly_cminus.Ir.Exec.{Env, External, update, value_of, exec}
use poly_cminus.Ir.Simulation.Emit.{exec-binary, value_of-update_self}
use poly_cminus.UselessOperationEli.{is_const_int}
use poly_cminus.UselessOperationEli.Sound.{value_of-zero, value_of-one}
use poly_cminus.Arithmetic.{
  Built, found, created, both_const, is_i32, of_i32, add_i32, sub_i32, mul_i32, add_i32_at,
  sub_i32_at, mul_i32_at, sdiv_i32_at,
}
use poly_cminus.ConstFold.Operators.{quotient_word}

-- An operand of type i32, whose constants are patterns of 32 bits.
abbrev pub IsI32 : (ℕ → IntTy) → Value → Type 0
IsI32 type_of (const_int t c) = (t ≡ i32) × (c < 2 ^ 32)
IsI32 type_of (ref x) = type_of x ≡ i32

-- The instructions run, and the value has become `x`.
abbrev pub Computes : {W : Type 0} (ext : External W) → Env → ℕ → Built → Type 0
Computes {W} ext e x b =
    (env : Env) × ((w : W) → exec ext b.emitted e w ≡ some (env, w)) × (value_of env b.val ≡ x)

module _ {W : Type 0} (ext : External W) (type_of : ℕ → IntTy) (e : Env) (next x : ℕ) where
  -- The outcome of a builder: something is built, and it computes `x`.
  abbrev Builds : Option Built → Type 0
  Builds o = (b : Built) × (o ≡ some b) × Computes ext e x b

  Builds-found : (v : Value) → value_of e v ≡ x → Builds (some (found v))
  Builds-found v h = (found v, refl, (e, (λ w. unfold exec in refl), h))

  Builds-created :
      (op : OpId) (v1 v2 : Value)
      → word_op 32 op (value_of e v1) (value_of e v2) ≡ some x
      → Builds (some (created next op v1 v2))
  Builds-created op v1 v2 h = (
    created next op v1 v2,
    refl,
    (
      update e next x,
      (λ w. exec-binary ext next op i32 v1 v2 [] e x w h ∙ (unfold exec in refl)),
      value_of-update_self e next x,
    ),
  )

  is_i32_lem : (v : Value) → IsI32 type_of v → is_i32 type_of v ≡ true
  is_i32_lem (const_int t c) h = rw (h.0)
  is_i32_lem (ref y) h = rw h

  Builds-of_i32 :
      (v1 v2 : Value) (o : Option Built)
      → IsI32 type_of v1
      → IsI32 type_of v2
      → Builds o
      → Builds (of_i32 type_of v1 v2 o)
  Builds-of_i32 v1 v2 o h1 h2 b = rw (is_i32_lem v1 h1, is_i32_lem v2 h2) b

  word_op-constants :
      (op : OpId) (t u : IntTy) (c d : ℕ)
      → IsI32 type_of (const_int t c)
      → IsI32 type_of (const_int u d)
      → word_op 32 op (value_of e (const_int t c)) (value_of e (const_int u d)) ≡ some x
      → apply_op 32 op c d ≡ some x
  word_op-constants op t u c d (tt1, h1) (tt2, h2) h =
      let l : value_of e (const_int t c) ≡ c = rw tt1 (plain c h1) in
      let r : value_of e (const_int u d) ≡ d = rw tt2 (plain d h2) in
      let (p, q, value) = word_op-eq-some 32 op c d (rw (l, r) at h) in value
    where
      plain : (c : ℕ) → c < 2 ^ 32 → value_of e (const_int i32 c) ≡ c
      plain c l = ground arith

  Builds-both_const :
      (op : OpId) (v1 v2 : Value) (f : ℕ → ℕ → Option Built) (o : Option Built)
      → IsI32 type_of v1
      → IsI32 type_of v2
      → word_op 32 op (value_of e v1) (value_of e v2) ≡ some x
      → ((c d : ℕ) → c < 2 ^ 32 → d < 2 ^ 32 → apply_op 32 op c d ≡ some x → Builds (f c d))
      → Builds o
      → Builds (both_const v1 v2 f o)
  Builds-both_const op (const_int t c) (const_int u d) f o (tt1, h1) (tt2, h2) h hf ho =
      hf c d h1 h2 (word_op-constants op t u c d (tt1, h1) (tt2, h2) h)
  Builds-both_const op (const_int t c) (ref y) f o h1 h2 h hf ho = ho
  Builds-both_const op (ref y) v2 f o h1 h2 h hf ho = ho

  folded : (c : ℕ) → c ≡ x → x < 2 ^ 32 → Builds (some (found (const_int i32 c)))
  folded c h l = Builds-found (const_int i32 c) (ground arith)

  folded_some : (c : ℕ) → c < 2 ^ 32 → some c ≡ some x → Builds (some (found (const_int i32 c)))
  folded_some c l h = let same : c ≡ x = cc in folded c same (rw (sym same) l)

  zero_built : (v : Value) → 0 ≡ x → Builds (some (found (const_int i32 0)))
  zero_built v h = folded 0 h (rw (sym h) (omega arith))

  Builds-if :
      (b : Bool) (o o' : Option Built)
      → (b ≡ true → Builds o)
      → (b ≡ false → Builds o')
      → Builds (if b then o else o')
  Builds-if true o o' h h' = h refl
  Builds-if false o o' h h' = h' refl

  module _ (v1 v2 : Value) (h1 : IsI32 type_of v1) (h2 : IsI32 type_of v2) where
    abbrev Operation : OpId → Type 0
    Operation op = word_op 32 op (value_of e v1) (value_of e v2) ≡ some x

    pub add_i32-Builds : Operation add → Builds (add_i32 type_of next v1 v2)
    unfolding add_i32
    add_i32-Builds h = Builds-of_i32 v1 v2 _ h1 h2 (
        Builds-both_const add v1 v2 _ _ h1 h2 h
          (λ c d _ _ value. folded_some ((c + d) % 2 ^ 32) (omega arith) value)
          (Builds-created add v1 v2 h))

    pub sub_i32-Builds : Operation sub → Builds (sub_i32 type_of next v1 v2)
    unfolding sub_i32
    sub_i32-Builds h = Builds-of_i32 v1 v2 _ h1 h2 (
        Builds-both_const sub v1 v2 _ _ h1 h2 h
          (λ c d _ _ value. folded_some ((c + 2 ^ 32 - d) % 2 ^ 32) (omega arith) value)
          (Builds-created sub v1 v2 h))

    pub mul_i32-Builds : Operation mul → Builds (mul_i32 type_of next v1 v2)
    unfolding mul_i32
    mul_i32-Builds h = Builds-of_i32 v1 v2 _ h1 h2 (
        Builds-both_const mul v1 v2 _ _ h1 h2 h
          (λ c d _ _ value. folded_some (c * d % 2 ^ 32) (omega arith) value)
          (Builds-created mul v1 v2 h))

    -- On operands of type i32 with a sum, add_i32 at an insertion point returns, its instructions
    -- run, and its value is the sum.
    pub add_i32_at-Builds : Operation add → Builds (add_i32_at type_of next v1 v2)
    unfolding add_i32_at
    add_i32_at-Builds h = Builds-of_i32 v1 v2 _ h1 h2 (
        Builds-both_const add v1 v2 _ _ h1 h2 h
          (λ c d _ _ value. folded_some ((c + d) % 2 ^ 32) (omega arith) value)
          (Builds-if (is_const_int 0 v1) (some (found v2)) _
            (λ z. Builds-found v2 (
              zero-add_word (value_of e v1) (value_of e v2) x i32 (rw (value_of-zero e v1 z) at h)))
            (λ _.
              Builds-if (is_const_int 0 v2) (some (found v1)) (some (created next add v1 v2))
                (λ z. Builds-found v1 (
                  add-zero_word (value_of e v1) (value_of e v2) x i32
                    (rw (value_of-zero e v2 z) at h)))
                (λ _. Builds-created add v1 v2 h))))

    pub sub_i32_at-Builds : Operation sub → Builds (sub_i32_at type_of next v1 v2)
    unfolding sub_i32_at
    sub_i32_at-Builds h = Builds-of_i32 v1 v2 _ h1 h2 (
        Builds-both_const sub v1 v2 _ _ h1 h2 h
          (λ c d _ _ value. folded_some ((c + 2 ^ 32 - d) % 2 ^ 32) (omega arith) value)
          (Builds-if (is_const_int 0 v2) (some (found v1)) (some (created next sub v1 v2))
            (λ z. Builds-found v1 (
              sub-zero_word (value_of e v1) (value_of e v2) x i32 (rw (value_of-zero e v2 z) at h)))
            (λ _. Builds-created sub v1 v2 h)))

    -- On operands of type i32 with a product, mul_i32 at an insertion point returns, its
    -- instructions run, and its value is the product.
    pub mul_i32_at-Builds : Operation mul → Builds (mul_i32_at type_of next v1 v2)
    unfolding mul_i32_at
    mul_i32_at-Builds h = Builds-of_i32 v1 v2 _ h1 h2 (
        Builds-both_const mul v1 v2 _ _ h1 h2 h
          (λ c d _ _ value. folded_some (c * d % 2 ^ 32) (omega arith) value)
          (Builds-if (is_const_int 1 v1) (some (found v2)) _
            (λ z.
              Builds-found v2 (
                one-mul_word (value_of e v1) (value_of e v2) x i32 (rw (value_of-one e v1 z) at h)))
            (λ _.
              Builds-if (is_const_int 1 v2) (some (found v1)) _
                (λ z. Builds-found v1 (
                  mul-one_word (value_of e v1) (value_of e v2) x i32
                    (rw (value_of-one e v2 z) at h)))
                (λ _.
                  Builds-if (is_const_int 0 v1 || is_const_int 0 v2)
                    (some (found (const_int i32 0))) (some (created next mul v1 v2))
                    (λ z. zero_built v1 (absorbed z)) (λ _. Builds-created mul v1 v2 h)))))
      where
        absorbed : (is_const_int 0 v1 || is_const_int 0 v2) ≡ true → 0 ≡ x
        absorbed z = elim (Bool-cases (is_const_int 0 v1)) [
          | inl p ↦
              zero-mul_word (value_of e v1) (value_of e v2) x i32 (rw (value_of-zero e v1 p) at h)
          | inr p ↦
              let q : is_const_int 0 v2 ≡ true = rw p at z in
              mul-zero_word (value_of e v1) (value_of e v2) x i32 (rw (value_of-zero e v2 q) at h)
        ]

    quotient_constants :
        (c d : ℕ)
        → c < 2 ^ 32
        → d < 2 ^ 32
        → (c == 2 ^ 31 && d == 2 ^ 32 - 1) ≡ false
        → apply_op 32 sdiv c d ≡ some x
        → Builds (
            if d == 0 || (c == 2 ^ 31 && d == 2 ^ 32 - 1)
            then none
            else some (found (const_int i32 (signed_quotient (2 ^ 32) c d))))
    quotient_constants c d lc ld fits value = elim (Bool-cases (d == 0)) [
      | inl z ↦ let impossible : none ≡ some x = rw z at value in cc
      | inr nz ↦
          let value' : some (signed_quotient (2 ^ 32) c d) ≡ some x = rw nz at value in
          rw (nz, fits)
            (folded_some (signed_quotient (2 ^ 32) c d) (quotient_word c d lc ld) value')
    ]

    -- The quotient of constants that does not fit an `int`.
    abbrev pub overflows : Bool
    overflows = is_const_int (2 ^ 31) v1 && is_const_int (2 ^ 32 - 1) v2

    -- On operands of type i32 with a quotient, other than the constants of the smallest `int` and
    -- -1, sdiv_i32 returns, its instructions run, and its value is the quotient.
    pub sdiv_i32_at-Builds :
        overflows ≡ false → Operation sdiv → Builds (sdiv_i32_at type_of next v1 v2)
    unfolding sdiv_i32_at
    sdiv_i32_at-Builds fits h = Builds-of_i32 v1 v2 _ h1 h2 (
        by_constants v1 v2 h1 h2 fits h (
          Builds-if (is_const_int 1 v2) (some (found v1)) _
            (λ z.
              Builds-found v1 (
                sdiv-one_word (value_of e v1) (value_of e v2) x i32
                  (rw (value_of-one e v2 z) at h)))
            (λ _.
              Builds-if (is_const_int 0 v1) (some (found (const_int i32 0)))
                (some (created next sdiv v1 v2))
                (λ z. zero_built v1 (
                  zero-sdiv_word (value_of e v1) (value_of e v2) x i32
                    (rw (value_of-zero e v1 z) at h)))
                (λ _. Builds-created sdiv v1 v2 h))))
      where
        by_constants :
            (v1 v2 : Value)
            → IsI32 type_of v1
            → IsI32 type_of v2
            → (is_const_int (2 ^ 31) v1 && is_const_int (2 ^ 32 - 1) v2) ≡ false
            → word_op 32 sdiv (value_of e v1) (value_of e v2) ≡ some x
            → {o : Option Built} → Builds o
            → Builds (
                both_const v1 v2
                  (λ c d.
                    if d == 0 || (c == 2 ^ 31 && d == 2 ^ 32 - 1)
                    then none
                    else some (found (const_int i32 (signed_quotient (2 ^ 32) c d))))
                  o)
        by_constants (const_int t c) (const_int u d) h1 h2 fits h ho =
            quotient_constants c d h1.1 h2.1 fits (word_op-constants sdiv t u c d h1 h2 h)
        by_constants (const_int t c) (ref y) h1 h2 fits h ho = ho
        by_constants (ref y) v2 h1 h2 fits h ho = ho
