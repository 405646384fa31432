-- ===== src/Ir/Word/Laws.antt =====
-- `word_op` at operands that are words, and what its results are.
use poly_cminus.Prelude.{ℕ, ◌^◌, ◌<◌, ◌≡◌, ltb, some, lt→ltb, Bool-cases, inl, inr, ltb→lt}
use poly_cminus.Ir.{OpId}
use poly_cminus.Ir.Word.{word_op, apply_op}

pub word_op-eq-some :
    (n : ℕ) (op : OpId) (a b : ℕ) {x : ℕ}
    → word_op n op a b ≡ some x
    → (a < 2 ^ n) × (b < 2 ^ n) × (apply_op n op a b ≡ some x)
unfolding word_op
word_op-eq-some n op a b h = elim (Bool-cases (ltb a (2 ^ n))) [
  | inl p ↦ elim (Bool-cases (ltb b (2 ^ n))) [
    | inl q ↦ (ltb→lt a (2 ^ n) p, ltb→lt b (2 ^ n) q, rw (p, q) at h)
    | inr q ↦ cc (rw (p, q) at h)
  ]
  | inr p ↦ cc (rw p at h)
]

pub word_op_lem :
    (n : ℕ) (op : OpId) (a b : ℕ) → a < 2 ^ n → b < 2 ^ n → word_op n op a b ≡ apply_op n op a b
unfolding word_op
word_op_lem n op a b p q = rw (lt→ltb a (2 ^ n) p, lt→ltb b (2 ^ n) q)
