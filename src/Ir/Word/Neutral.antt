-- ===== src/Ir/Word/Neutral.antt =====
-- Neutral and absorbing operands of the integer operators, at each type.
use poly_cminus.Prelude.{ℕ, ◌≡◌, some, arith}
use poly_cminus.Ir.{add, sub, mul, sdiv, shl, lshr, ashr, IntTy, i1, num_bits}
use poly_cminus.Ir.Word.{word_op}
use poly_cminus.Ir.Word.Laws.{word_op-eq-some}

module _ (a b x : ℕ) where
  pub zero-add_word : (t : IntTy) → word_op (num_bits t) add 0 b ≡ some x → b ≡ x
  zero-add_word i1 h = let (p, q, e) = word_op-eq-some 1 add 0 b h in ground arith
  zero-add_word t h = let (p, q, e) = word_op-eq-some (num_bits t) add 0 b h in ground arith

  pub add-zero_word : (t : IntTy) → word_op (num_bits t) add a 0 ≡ some x → a ≡ x
  add-zero_word i1 h = let (p, q, e) = word_op-eq-some 1 add a 0 h in ground arith
  add-zero_word t h = let (p, q, e) = word_op-eq-some (num_bits t) add a 0 h in ground arith

  pub sub-zero_word : (t : IntTy) → word_op (num_bits t) sub a 0 ≡ some x → a ≡ x
  sub-zero_word i1 h = let (p, q, e) = word_op-eq-some 1 sub a 0 h in ground arith
  sub-zero_word t h = let (p, q, e) = word_op-eq-some (num_bits t) sub a 0 h in ground arith

  pub one-mul_word : (t : IntTy) → word_op (num_bits t) mul 1 b ≡ some x → b ≡ x
  one-mul_word i1 h = let (p, q, e) = word_op-eq-some 1 mul 1 b h in ground arith
  one-mul_word t h = let (p, q, e) = word_op-eq-some (num_bits t) mul 1 b h in ground arith

  pub mul-one_word : (t : IntTy) → word_op (num_bits t) mul a 1 ≡ some x → a ≡ x
  mul-one_word i1 h = let (p, q, e) = word_op-eq-some 1 mul a 1 h in ground arith
  mul-one_word t h = let (p, q, e) = word_op-eq-some (num_bits t) mul a 1 h in ground arith

  pub zero-mul_word : (t : IntTy) → word_op (num_bits t) mul 0 b ≡ some x → 0 ≡ x
  zero-mul_word i1 h = let (p, q, e) = word_op-eq-some 1 mul 0 b h in ground arith
  zero-mul_word t h = let (p, q, e) = word_op-eq-some (num_bits t) mul 0 b h in ground arith

  pub mul-zero_word : (t : IntTy) → word_op (num_bits t) mul a 0 ≡ some x → 0 ≡ x
  mul-zero_word i1 h = let (p, q, e) = word_op-eq-some 1 mul a 0 h in ground arith
  mul-zero_word t h = let (p, q, e) = word_op-eq-some (num_bits t) mul a 0 h in ground arith

  pub sdiv-one_word : (t : IntTy) → word_op (num_bits t) sdiv a 1 ≡ some x → a ≡ x
  sdiv-one_word i1 h = let (p, q, e) = word_op-eq-some 1 sdiv a 1 h in ground arith
  sdiv-one_word t h = let (p, q, e) = word_op-eq-some (num_bits t) sdiv a 1 h in ground arith

  pub zero-sdiv_word : (t : IntTy) → word_op (num_bits t) sdiv 0 b ≡ some x → 0 ≡ x
  zero-sdiv_word i1 h = let (p, q, e) = word_op-eq-some 1 sdiv 0 b h in ground arith
  zero-sdiv_word t h = let (p, q, e) = word_op-eq-some (num_bits t) sdiv 0 b h in ground arith

  pub ashr-zero_word : (t : IntTy) → word_op (num_bits t) ashr a 0 ≡ some x → a ≡ x
  ashr-zero_word i1 h = let (p, q, e) = word_op-eq-some 1 ashr a 0 h in ground arith
  ashr-zero_word t h = let (p, q, e) = word_op-eq-some (num_bits t) ashr a 0 h in ground arith

  pub lshr-zero_word : (t : IntTy) → word_op (num_bits t) lshr a 0 ≡ some x → a ≡ x
  lshr-zero_word i1 h = let (p, q, e) = word_op-eq-some 1 lshr a 0 h in ground arith
  lshr-zero_word t h = let (p, q, e) = word_op-eq-some (num_bits t) lshr a 0 h in ground arith

  pub shl-zero_word : (t : IntTy) → word_op (num_bits t) shl a 0 ≡ some x → a ≡ x
  shl-zero_word i1 h = let (p, q, e) = word_op-eq-some 1 shl a 0 h in ground arith
  shl-zero_word t h = let (p, q, e) = word_op-eq-some (num_bits t) shl a 0 h in ground arith
