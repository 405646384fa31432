-- ===== src/ConstFold/Comparisons.antt =====
-- Folded comparisons are those of the signed order.
use poly_cminus.Prelude.{ℕ, ◌+◌, ◌%◌, ◌^◌, ◌<◌, ◌≡◌, ap, Bool, not, ltb, leb, ◌==◌, arith}
use poly_cminus.Ir.{IntTy, const_int}
use poly_cminus.ConstFold.{CmpOp, eq, ne, gt, ge, lt, le, compare_int, eval_cmp, folded, bool_const}

-- Adding 2 ^ 31 turns the signed order of words into that of the numbers.
abbrev pub biased : ℕ → ℕ
biased c = (c + 2 ^ 31) % 2 ^ 32

abbrev pub holds : CmpOp → ℕ → ℕ → Bool
holds eq a b = a == b
holds ne a b = not (a == b)
holds gt a b = ltb b a
holds ge a b = leb b a
holds lt a b = ltb a b
holds le a b = leb a b

compare_int-holds :
    (op : CmpOp) (l r : ℕ)
    → l < 2 ^ 32
    → r < 2 ^ 32
    → compare_int op l r ≡ holds op (biased l) (biased r)
unfolding compare_int
compare_int-holds eq l r hl hr = ground arith
compare_int-holds ne l r hl hr = ground arith
compare_int-holds gt l r hl hr = ground arith
compare_int-holds ge l r hl hr = ground arith
compare_int-holds lt l r hl hr = ground arith
compare_int-holds le l r hl hr = ground arith

-- A comparison of constants folds to the i1 constant of the signed comparison of their patterns.
pub eval_cmp-holds :
    (op : CmpOp) (t u : IntTy) (l r : ℕ)
    → l < 2 ^ 32
    → r < 2 ^ 32
    → eval_cmp op (const_int t l) (const_int u r)
      ≡ folded (bool_const (holds op (biased l) (biased r)))
unfolding eval_cmp
eval_cmp-holds op t u l r hl hr =
    ap (λ (b : Bool). folded (bool_const b)) (compare_int-holds op l r hl hr)
