-- ===== src/Sccp/Lattice.antt =====
-- The class Lattice of include/Optimize/SCCPSolver.hh.
pub mod Order
use poly_cminus.Prelude.{ℕ, Bool, true, false, ◌==◌, ◌&&◌, ◌||◌, if◌then◌else◌, Option, none, some}
use poly_cminus.Ir.{IntTy, i1, i32, i64}

-- ConstantInt and ConstantFP. The getters of src/MIR_new/Constant.cc keep one object for each
-- type and value, so that pointers to constants are equal where these are.
pub data Constant : Type 0 where
  int_const : IntTy → ℕ → Constant
  fp_const : ℕ → Constant

abbrev pub same_type : IntTy → IntTy → Bool
same_type i1 i1 = true
same_type i32 i32 = true
same_type i64 i64 = true
same_type t u = false

abbrev pub same_constant : Constant → Constant → Bool
same_constant (int_const t c) (int_const u d) = same_type t u && c == d
same_constant (fp_const c) (fp_const d) = c == d
same_constant c d = false

pub data LatticeType : Type 0 where
  unknown constant overdefined : LatticeType

-- `val` is null in a new element, and keeps its value when the tag becomes overdefined.
pub record Lattice : Type 0 where
  pub tag : LatticeType
  pub val : Option Constant

abbrev pub new_lattice : Lattice
new_lattice = record { tag = unknown; val = none }

abbrev pub is_unknown : LatticeType → Bool
is_unknown unknown = true
is_unknown t = false

abbrev pub is_constant : LatticeType → Bool
is_constant constant = true
is_constant t = false

abbrev pub is_overdefined : LatticeType → Bool
is_overdefined overdefined = true
is_overdefined t = false

-- Whether the element changed, and the element.
abbrev pub Marked : Type 0
Marked = record { changed : Bool; now : Lattice }

abbrev pub mark_overdefined : Lattice → Marked
mark_overdefined lat =
    if is_overdefined lat.tag
    then record { changed = false; now = lat }
    else record { changed = true; now = record lat { tag = overdefined } }

abbrev pub same_val : Option Constant → Option Constant → Bool
same_val none none = true
same_val (some c) (some d) = same_constant c d
same_val u v = false

-- `none` is the exit on two different constants.
abbrev pub mark_constant : Constant → Lattice → Option Marked
mark_constant newval lat =
    if is_constant lat.tag
    then if same_val (some newval) lat.val
      then some (record { changed = false; now = lat })
      else none
    else some (record { changed = true; now = record { tag = constant; val = some newval } })

-- `mergein`, whose two exits cannot be reached.
unfoldable pub mergein : Lattice → Lattice → Marked
mergein lat rhs =
    if is_unknown rhs.tag || is_overdefined lat.tag
    then record { changed = false; now = lat }
    else if is_overdefined rhs.tag
    then mark_overdefined lat
    else if is_unknown lat.tag
    then record { changed = true; now = rhs }
    else if is_constant rhs.tag && same_val lat.val rhs.val
    then record { changed = false; now = lat }
    else mark_overdefined lat
