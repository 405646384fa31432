-- ===== src/Ir/Exec.antt =====
-- Execution of straight-line code: the values of the identities so far, and a state `W` of the
-- world that instructions other than the integer operators read and change.
use poly_cminus.Prelude.{ℕ, ◌==◌, if◌then◌else◌, Option, some, ◌>>=◌, List, [], ◌∷◌, map}
use poly_cminus.Ir.{Value, const_int, ref, Inst, binary, other, num_bits}
use poly_cminus.Ir.Word.{word_op, sign_extend}

abbrev pub Env : Type 0
Env = ℕ → ℕ

abbrev pub update : Env → ℕ → ℕ → Env
update e d x y = if y == d then x else e y

abbrev pub value_of : Env → Value → ℕ
value_of e (const_int t c) = sign_extend (num_bits t) c
value_of e (ref x) = e x

-- What the other instructions do: a result and the next world, or undefined behaviour.
abbrev pub External : Type 0 → Type 0
External W = ℕ → List ℕ → W → Option (ℕ × W)

module _ {W : Type 0} (ext : External W) where
  unfoldable pub exec_inst : Inst → Env → W → Option (Env × W)
  exec_inst (binary d op t a b) e w =
      word_op (num_bits t) op (value_of e a) (value_of e b) >>= λ x. some (update e d x, w)
  exec_inst (other d k args) e w =
      ext k (map (value_of e) args) w >>= λ r. some (update e d r.0, r.1)

  unfoldable pub exec : List Inst → Env → W → Option (Env × W)
  exec [] e w = some (e, w)
  exec (i ∷ is) e w = exec_inst i e w >>= λ r. exec is r.0 r.1
