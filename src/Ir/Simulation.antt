-- ===== src/Ir/Simulation.antt =====
-- What a rule of Ir/Rewrite.antt owes, and the children's theorem that the loop over a block then
-- keeps the meaning of the block.
pub mod Contract
pub mod Emit
pub mod Operands
mod Steps
mod Head
pub mod Block
use poly_cminus.Prelude.{
  ℕ, suc, ◌+◌, ◌≤◌, ◌<◌, ◌≡◌, ◌≢◌, ◌⊎◌, Bool, false, Option, none, some, List, [], ◌∷◌, length, All,
}
use poly_cminus.Ir.{
  OpId, IntTy, Value, const_int, ref, Inst, binary, other, num_bits, Replacements, replaced,
}
use poly_cminus.Ir.Word.{word_op}
use poly_cminus.Ir.Exec.{Env, External, value_of, exec}
use poly_cminus.Ir.Rewrite.{Rule, Rewrite, Rewritten}

-- An operand that is no identity from `n` on.
abbrev pub Below : ℕ → Value → Type 0
Below n (const_int t c) = Unit
Below n (ref x) = x < n

-- Where the replacement of an instruction comes from.
pub data Origin (next next' : ℕ) (a b v : Value) : Type 0 where
  constant : (t : IntTy) (c : ℕ) → v ≡ const_int t c → Origin next next' a b v
  left : v ≡ a → Origin next next' a b v
  right : v ≡ b → Origin next next' a b v
  fresh : (y : ℕ) → next ≤ y → y < next' → v ≡ ref y → Origin next next' a b v

-- The replacement is built from the operands and the emitted instructions, and an instruction that
-- leaves the block has one. `V` holds of every operand that the rule must cope with.
pub record IsShaped (V : Value → Type 0) (next : ℕ) (a b : Value) (r : Rewrite) : Type 0 where
  pub origin : (v : Value) → r.new_val ≡ some v → V v × Origin next (next + length r.emitted) a b v
  pub erased : r.kept ≡ false → r.new_val ≢ none

-- The emitted instructions run, change no identity below `next`, and give the replacement the
-- value `x` of the instruction.
pub record Preserves {W : Type 0} (ext : External W) (next : ℕ) (e : Env) (x : ℕ) (r : Rewrite)
    : Type 0 where
  pub env : Env
  pub runs : (w : W) → exec ext r.emitted e w ≡ some (env, w)
  pub same : (y : ℕ) → y < next → env y ≡ e y
  pub result : (v : Value) → r.new_val ≡ some v → value_of env v ≡ x

-- The contract of a rule, for the operators and types in `T` and the operands in `V`: it returns,
-- its rewrite is shaped, and the rewrite preserves each value that the instruction can have.
abbrev pub IsSoundRule :
    {W : Type 0} (ext : External W) (T : OpId → IntTy → Type 0) (V : Value → Type 0) → Rule → Type 0
IsSoundRule ext T V rule =
    (next : ℕ) (op : OpId) (t : IntTy) (a b : Value)
    → T op t
    → V a
    → V b
    → (r : Rewrite) × (rule next op t a b ≡ some r)
      × IsShaped V next a b r
      × ((e : Env) (x : ℕ)
          → Below next a
          → Below next b
          → word_op (num_bits t) op (value_of e a) (value_of e b) ≡ some x
          → Preserves ext next e x r)

-- Straight-line code whose identities grow from `k` and stay below `n`, and whose operands are
-- older than the instruction that uses them.
abbrev pub IsNumbered :
    (T : OpId → IntTy → Type 0) (V : Value → Type 0) → ℕ → ℕ → List Inst → Type 0
IsNumbered T V n k [] = Unit
IsNumbered T V n k (binary d op t a b ∷ is) =
    (k ≤ d) × (d < n) × T op t × (Below d a × V a) × (Below d b × V b) × IsNumbered T V n (suc d) is
IsNumbered T V n k (other d _ args ∷ is) =
    (k ≤ d) × (d < n) × All (Below d) args × IsNumbered T V n (suc d) is

-- Every identity below `n` has in `e` the value that its replacement has in `e'`.
abbrev pub Agree : ℕ → Replacements → Env → Env → Type 0
Agree n rs e e' = (x : ℕ) → x < n → e x ≡ value_of e' (replaced rs (ref x))

abbrev pub InRange : ℕ → ℕ → ℕ → Value → Type 0
InRange n k next (const_int t c) = Unit
InRange n k next (ref y) = (y < k) ⊎ ((n ≤ y) × (y < next))

-- Only identities below `k` are replaced, by what is older than `k` or new.
abbrev pub IsSettled : (V : Value → Type 0) → ℕ → ℕ → ℕ → Replacements → Type 0
IsSettled V n k next rs =
    (x : ℕ)
    → x < n
    → V (replaced rs (ref x))
      × ((replaced rs (ref x) ≡ ref x) ⊎ ((x < k) × InRange n k next (replaced rs (ref x))))

-- Whatever the old code does from `e`, the new code does from any `e'` that agrees with `e`: the
-- same world, and again environments that agree.
abbrev pub Simulates :
    {W : Type 0} (ext : External W) → ℕ → Replacements → List Inst → Rewritten → Type 0
Simulates {W} ext n rs is res =
    (e e' : Env) (w w₁ : W) (e₁ : Env)
    → Agree n rs e e'
    → exec ext is e w ≡ some (e₁, w₁)
    → (e₂ : Env) × (exec ext res.code e' w ≡ some (e₂, w₁)) × Agree n res.pending e₁ e₂
