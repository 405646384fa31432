-- ===== src/UselessOperationEli/Sound.antt =====
-- The replacements of UselessOperationEli have the values of the instructions they replace.
use poly_cminus.Prelude.{
  ℕ, ◌+◌, ◌^◌, ◌<◌, ◌≡◌, ◌≢◌, refl, true, false, some, List, [], arith, bit_and-zero_right,
  Option-cases, inl, inr, ◌⊎◌,
}
use poly_cminus.Ir.{
  OpId, add, sub, mul, sdiv, srem, shl, lshr, ashr, and_, IntTy, i1, i32, i64, Value, const_int,
  ref, Inst, num_bits,
}
use poly_cminus.Ir.Word.{word_op}
use poly_cminus.Ir.Word.Neutral.{
  zero-add_word, add-zero_word, sub-zero_word, one-mul_word, mul-one_word, zero-mul_word,
  mul-zero_word, sdiv-one_word, zero-sdiv_word, ashr-zero_word, lshr-zero_word, shl-zero_word,
}
use poly_cminus.Ir.Exec.{Env, External, value_of}
use poly_cminus.Ir.Rewrite.{unchanged, Rewritten, run_block}
use poly_cminus.Ir.Simulation.{IsSoundRule, IsNumbered, Simulates, Origin, constant, left, right}
use poly_cminus.Ir.Simulation.Contract.{
  unchanged-IsShaped, unchanged-Preserves, replace_by, replace_by-IsShaped, replace_by-Preserves,
}
use poly_cminus.Ir.Simulation.Block.{run_block-Simulates}
use poly_cminus.UselessOperationEli.{simplified, is_const_int, useless_rule}

pub value_of-zero : (e : Env) (v : Value) → is_const_int 0 v ≡ true → value_of e v ≡ 0
value_of-zero e (const_int i1 c) h = ground arith
value_of-zero e (const_int i32 c) h = ground arith
value_of-zero e (const_int i64 c) h = ground arith
value_of-zero e (ref x) h = cc

pub value_of-one : (e : Env) (v : Value) → is_const_int 1 v ≡ true → value_of e v ≡ 1
value_of-one e (const_int i1 c) h = ground arith
value_of-one e (const_int i32 c) h = ground arith
value_of-one e (const_int i64 c) h = ground arith
value_of-one e (ref x) h = cc

module _ (e : Env) (t : IntTy) (a b v : Value) (x : ℕ) where
  abbrev Simplifies : OpId → Type 0
  Simplifies op =
      word_op (num_bits t) op (value_of e a) (value_of e b) ≡ some x
      → simplified op a b ≡ some v
      → value_of e v ≡ x

  simplified_add : Simplifies add
  unfolding simplified
  simplified_add h s = ground (
    arith,
    value_of-zero e a,
    value_of-zero e b,
    zero-add_word (value_of e a) (value_of e b) x t,
    add-zero_word (value_of e a) (value_of e b) x t,
  )

  simplified_sub : Simplifies sub
  unfolding simplified
  simplified_sub h s =
      ground (arith, value_of-zero e b, sub-zero_word (value_of e a) (value_of e b) x t)

  simplified_mul : Simplifies mul
  unfolding simplified
  simplified_mul h s = ground (
    arith,
    value_of-zero e a,
    value_of-zero e b,
    value_of-one e a,
    value_of-one e b,
    one-mul_word (value_of e a) (value_of e b) x t,
    mul-one_word (value_of e a) (value_of e b) x t,
    zero-mul_word (value_of e a) (value_of e b) x t,
    mul-zero_word (value_of e a) (value_of e b) x t,
  )

  simplified_sdiv : Simplifies sdiv
  unfolding simplified
  simplified_sdiv h s = ground (
    arith,
    value_of-zero e a,
    value_of-one e b,
    sdiv-one_word (value_of e a) (value_of e b) x t,
    zero-sdiv_word (value_of e a) (value_of e b) x t,
  )

  simplified_ashr : Simplifies ashr
  unfolding simplified
  simplified_ashr h s =
      ground (arith, value_of-zero e b, ashr-zero_word (value_of e a) (value_of e b) x t)

  simplified_lshr : Simplifies lshr
  unfolding simplified
  simplified_lshr h s =
      ground (arith, value_of-zero e b, lshr-zero_word (value_of e a) (value_of e b) x t)

  simplified_shl : Simplifies shl
  unfolding simplified
  simplified_shl h s =
      ground (arith, value_of-zero e b, shl-zero_word (value_of e a) (value_of e b) x t)

  simplified_srem : Simplifies srem
  unfolding simplified
  simplified_srem h s = cc

  -- Every operator but `and_`.
  simplified_value : (op : OpId) → op ≢ and_ → Simplifies op
  simplified_value add ne = simplified_add
  simplified_value sub ne = simplified_sub
  simplified_value mul ne = simplified_mul
  simplified_value sdiv ne = simplified_sdiv
  simplified_value srem ne = simplified_srem
  simplified_value shl ne = simplified_shl
  simplified_value lshr ne = simplified_lshr
  simplified_value ashr ne = simplified_ashr
  simplified_value and_ ne = absurd (ne refl)

module _ (t : IntTy) (a b v : Value) where
  simplified_origin :
      (op : OpId) → simplified op a b ≡ some v → ((v ≡ const_int i32 0) ⊎ (v ≡ a)) ⊎ (v ≡ b)
  unfolding simplified
  simplified_origin op s = ground arith

useless_rule-IsSoundRule :
    {W : Type 0} (ext : External W) → IsSoundRule ext (λ op t. op ≢ and_) (λ v. Unit) useless_rule
unfolding useless_rule
useless_rule-IsSoundRule ext next op t a b ne _ _ = elim (Option-cases (simplified op a b)) [
  | inl e ↦ (
    unchanged,
    rw (e, useless_rule) refl,
    unchanged-IsShaped (λ v. Unit) next a b,
    λ env x _ _ h. unchanged-Preserves ext next env x,
  )
  | inr (v, e) ↦ (
    replace_by v false,
    rw (e, useless_rule) refl,
    replace_by-IsShaped (λ v. Unit) next a b v false tt (from v (simplified_origin t a b v op e)),
    λ env x _ _ h.
        replace_by-Preserves ext next env x v false (simplified_value env t a b v x op ne h e),
  )
]
  where
    from : (v : Value) → ((v ≡ const_int i32 0) ⊎ (v ≡ a)) ⊎ (v ≡ b) → Origin next (next + 0) a b v
    from v (inl (inl p)) = constant i32 0 p
    from v (inl (inr p)) = left p
    from v (inr p) = right p

-- A pass over a numbered block without `and_` returns, and whatever the old code does the new
-- code does: the same world, and in the replacement of each identity the same value.
pub run_block-useless_rule :
    {W : Type 0} (ext : External W) (n k : ℕ) (is : List Inst)
    → IsNumbered (λ op t. op ≢ and_) (λ v. Unit) n k is
    → (res : Rewritten) × (run_block useless_rule false [] n is ≡ some res)
      × Simulates ext n [] is res
run_block-useless_rule ext n k is num =
    run_block-Simulates ext (λ op t. op ≢ and_) (λ v. Unit) useless_rule n k is
      (useless_rule-IsSoundRule ext) (λ x. tt) num

-- `x & 0` is replaced by `x`, whose value is wrong unless it is zero.
pub simplified-and_-zero :
    (e : Env) (t : IntTy) (a : Value)
    → value_of e a ≢ 0
    → value_of e a < 2 ^ num_bits t
    → (simplified and_ a (const_int t 0) ≡ some a)
      × (word_op (num_bits t) and_ (value_of e a) (value_of e (const_int t 0)) ≡ some 0)
unfolding simplified word_op
simplified-and_-zero e i1 a ne h = ground (arith, bit_and-zero_right (value_of e a))
simplified-and_-zero e t a ne h = ground (arith, bit_and-zero_right (value_of e a))
