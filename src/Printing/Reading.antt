-- ===== src/Printing/Reading.antt =====
-- Which names of src/MIR_new tell their kind of instruction or comparison.
use Prim.Native.String.{String}
use text.Mathlib.Text.{◌==◌}
use poly_cminus.Prelude.{if◌then◌else◌, Option, none, some, List, [], ◌∷◌, ◌≡◌, ◌≢◌, refl}
use poly_cminus.ConstFold.{CmpOp, eq, ne, gt, ge, lt, le}
use poly_cminus.Printing.{
  OpId, ret, br, switch1, add, sub, mul, sdiv, srem, and1, or1, xor1, shl, lshr, ashr, and_, fadd,
  fsub, fmul, fdiv, alloca, load, store, cmp, fcmp, select, phi, call, getelementptr, zext, fptosi,
  sitofp, ptrtoint, inttoptr, mov, muladd, mulsub, rsub, Entry, instr_id2string, get_instr_op_name,
  print_cmp_type, print_fcmp_type,
}

-- The first kind of this name.
abbrev pub read : List Entry → String → Option OpId
read [] s = none
read (e ∷ es) s = if e.name == s then some e.id else read es s

-- Every kind but `select` and `and1` is the first one of its name, so the names of any two of them
-- differ.
pub read-get_instr_op_name :
    (instr : OpId)
    → instr ≢ select
    → instr ≢ and1
    → read instr_id2string (get_instr_op_name instr) ≡ some instr
unfolding get_instr_op_name
read-get_instr_op_name ret p q = refl
read-get_instr_op_name br p q = refl
read-get_instr_op_name switch1 p q = refl
read-get_instr_op_name add p q = refl
read-get_instr_op_name sub p q = refl
read-get_instr_op_name mul p q = refl
read-get_instr_op_name sdiv p q = refl
read-get_instr_op_name srem p q = refl
read-get_instr_op_name and1 p q = absurd (q refl)
read-get_instr_op_name or1 p q = refl
read-get_instr_op_name xor1 p q = refl
read-get_instr_op_name shl p q = refl
read-get_instr_op_name lshr p q = refl
read-get_instr_op_name ashr p q = refl
read-get_instr_op_name and_ p q = refl
read-get_instr_op_name fadd p q = refl
read-get_instr_op_name fsub p q = refl
read-get_instr_op_name fmul p q = refl
read-get_instr_op_name fdiv p q = refl
read-get_instr_op_name alloca p q = refl
read-get_instr_op_name load p q = refl
read-get_instr_op_name store p q = refl
read-get_instr_op_name cmp p q = refl
read-get_instr_op_name fcmp p q = refl
read-get_instr_op_name select p q = absurd (p refl)
read-get_instr_op_name phi p q = refl
read-get_instr_op_name call p q = refl
read-get_instr_op_name getelementptr p q = refl
read-get_instr_op_name zext p q = refl
read-get_instr_op_name fptosi p q = refl
read-get_instr_op_name sitofp p q = refl
read-get_instr_op_name ptrtoint p q = refl
read-get_instr_op_name inttoptr p q = refl
read-get_instr_op_name mov p q = refl
read-get_instr_op_name muladd p q = refl
read-get_instr_op_name mulsub p q = refl
read-get_instr_op_name rsub p q = refl

-- The first comparison that prints so.
abbrev pub read_cmp : (CmpOp → String) → List CmpOp → String → Option CmpOp
read_cmp print [] s = none
read_cmp print (op ∷ ops) s = if print op == s then some op else read_cmp print ops s

abbrev pub comparisons : List CmpOp
comparisons = eq ∷ ne ∷ gt ∷ ge ∷ lt ∷ le ∷ []

-- A comparison can be read from its name, on integers and on floats, and no name of a comparison on
-- integers is one on floats.
pub read_cmp-print :
    (op : CmpOp)
    → (read_cmp print_cmp_type comparisons (print_cmp_type op) ≡ some op)
      × (read_cmp print_fcmp_type comparisons (print_fcmp_type op) ≡ some op)
      × (read_cmp print_cmp_type comparisons (print_fcmp_type op) ≡ none)
unfolding print_cmp_type print_fcmp_type
read_cmp-print eq = (refl, refl, refl)
read_cmp-print ne = (refl, refl, refl)
read_cmp-print gt = (refl, refl, refl)
read_cmp-print ge = (refl, refl, refl)
read_cmp-print lt = (refl, refl, refl)
read_cmp-print le = (refl, refl, refl)
