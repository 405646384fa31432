-- ===== src/IrCheck/Values.antt =====
-- The module that src/Optimize/IRCheck.cc looks through: values by their identity, their kinds,
-- and the loops and sets of the checks.
use poly_cminus.Prelude.{
  ℕ, suc, ◌==◌, ◌&&◌, ◌||◌, length, Bool, true, false, if◌then◌else◌, Option, none, some, List, [],
  ◌∷◌,
}
use poly_cminus.Uses.{Use, Store}
use poly_cminus.RemoveUselessBr.{Graph}
use poly_cminus.Dominators.Frontier.{add_block}
use poly_cminus.Dominators.Iteration.{is_block}

pub data Kind : Type 0 where
  phi br ret switch1 call store load alloca getelementptr other : Kind

pub data Class : Type 0 where
  constant instruction basic_block function argument global : Class

-- A module: its values by their identity, and what the lists of its parts hold.
pub record Module : Type 0 where
  pub globals : List ℕ
  pub functions : List ℕ
  pub args : ℕ → List ℕ
  pub basic_blocks : ℕ → List ℕ
  pub instructions : ℕ → List ℕ
  pub class_of : ℕ → Class
  pub kind : ℕ → Kind
  pub parent : ℕ → Option ℕ
  pub graph : Graph
  pub store : Store

abbrev pub is_phi : Kind → Bool
is_phi phi = true
is_phi k = false

-- `is_br() || is_ret()`
abbrev pub is_br_or_ret : Kind → Bool
is_br_or_ret br = true
is_br_or_ret ret = true
is_br_or_ret k = false

-- What `get_terminator` takes for one.
abbrev pub is_terminator : Kind → Bool
is_terminator switch1 = true
is_terminator k = is_br_or_ret k

abbrev pub is_instruction : Class → Bool
is_instruction instruction = true
is_instruction c = false

abbrev pub is_basic_block : Class → Bool
is_basic_block basic_block = true
is_basic_block c = false

abbrev pub is_constant : Class → Bool
is_constant constant = true
is_constant c = false

-- A loop that throws at the first element that fails.
abbrev pub every {ℓ} : {A : Type ℓ} → (A → Bool) → List A → Bool
every p [] = true
every p (x ∷ xs) = p x && every p xs

abbrev pub last_of : List ℕ → Option ℕ
last_of [] = none
last_of (x ∷ []) = some x
last_of (x ∷ y ∷ ys) = last_of (y ∷ ys)

-- `{set.begin(), set.end()}` of a list, by its size.
abbrev pub set_of : List ℕ → List ℕ
set_of [] = []
set_of (x ∷ xs) = add_block x (set_of xs)

abbrev pub is_unique : List ℕ → Bool
is_unique xs = length (set_of xs) == length xs

abbrev pub has_entry : List Use → Use → Bool
has_entry [] u = false
has_entry (x ∷ xs) u = (u.user == x.user && u.arg_no == x.arg_no) || has_entry xs u

abbrev pub set_of_uses : List Use → List Use
set_of_uses [] = []
set_of_uses (x ∷ xs) = let rest = set_of_uses xs in if has_entry rest x then rest else x ∷ rest

-- The place in a list, the length where it is not there.
abbrev pub distance : List ℕ → ℕ → ℕ
distance [] x = 0
distance (y ∷ ys) x = if x == y then 0 else suc (distance ys x)

abbrev pub names : List (Option ℕ) → ℕ → Bool
names [] v = false
names (o ∷ os) v = is_block o v || names os v

abbrev pub same : Option ℕ → Option ℕ → Bool
same none none = true
same none (some b) = false
same (some a) none = false
same (some a) (some b) = a == b

-- The blocks of a phi: every second operand.
abbrev pub incoming_blocks : List (Option ℕ) → List (Option ℕ)
incoming_blocks [] = []
incoming_blocks (o ∷ []) = none ∷ []
incoming_blocks (o ∷ b ∷ os) = b ∷ incoming_blocks os
