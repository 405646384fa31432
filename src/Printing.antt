-- ===== src/Printing.antt =====
-- The names that src/MIR_new/Module.cc gives to the kinds of instructions, and those of the
-- comparisons in src/MIR_new/IRprinter.cc.
mod Reading
mod Tests
use Prim.Native.String.{String}
use poly_cminus.Prelude.{ℕ, ◌==◌, Bool, true, false, if◌then◌else◌, List, [], ◌∷◌}
use poly_cminus.ConstFold.{CmpOp, eq, ne, gt, ge, lt, le}

-- `Instruction::OpID`
pub data OpId : Type 0 where
  ret br switch1 add sub mul sdiv srem and1 or1 xor1 shl lshr ashr and_ fadd fsub fmul fdiv : OpId
  alloca load store cmp fcmp select phi call getelementptr zext fptosi sitofp ptrtoint inttoptr :
      OpId
  mov muladd mulsub rsub : OpId

-- The value of the enumerator.
abbrev pub number : OpId → ℕ
number ret = 0
number br = 1
number switch1 = 2
number add = 3
number sub = 4
number mul = 5
number sdiv = 6
number srem = 7
number and1 = 8
number or1 = 9
number xor1 = 10
number shl = 11
number lshr = 12
number ashr = 13
number and_ = 14
number fadd = 15
number fsub = 16
number fmul = 17
number fdiv = 18
number alloca = 19
number load = 20
number store = 21
number cmp = 22
number fcmp = 23
number select = 24
number phi = 25
number call = 26
number getelementptr = 27
number zext = 28
number fptosi = 29
number sitofp = 30
number ptrtoint = 31
number inttoptr = 32
number mov = 33
number muladd = 34
number mulsub = 35
number rsub = 36

-- An entry of `instr_id2string_`.
pub record Entry : Type 0 where
  pub id : OpId
  pub name : String

abbrev pub instr_id2string : List Entry
instr_id2string =
    record { id = ret; name = "ret" }
    ∷ record { id = br; name = "br" }
    ∷ record { id = switch1; name = "switch" }
    ∷ record { id = add; name = "add" }
    ∷ record { id = sub; name = "sub" }
    ∷ record { id = mul; name = "mul" }
    ∷ record { id = srem; name = "srem" }
    ∷ record { id = shl; name = "shl" }
    ∷ record { id = ashr; name = "ashr" }
    ∷ record { id = and_; name = "and" }
    ∷ record { id = lshr; name = "lshr" }
    ∷ record { id = sdiv; name = "sdiv" }
    ∷ record { id = and1; name = "and" }
    ∷ record { id = or1; name = "or" }
    ∷ record { id = xor1; name = "xor" }
    ∷ record { id = fadd; name = "fadd" }
    ∷ record { id = fsub; name = "fsub" }
    ∷ record { id = fmul; name = "fmul" }
    ∷ record { id = fdiv; name = "fdiv" }
    ∷ record { id = alloca; name = "alloca" }
    ∷ record { id = load; name = "load" }
    ∷ record { id = store; name = "store" }
    ∷ record { id = cmp; name = "icmp" }
    ∷ record { id = fcmp; name = "fcmp" }
    ∷ record { id = phi; name = "phi" }
    ∷ record { id = call; name = "call" }
    ∷ record { id = getelementptr; name = "getelementptr" }
    ∷ record { id = zext; name = "zext" }
    ∷ record { id = sitofp; name = "sitofp" }
    ∷ record { id = fptosi; name = "fptosi" }
    ∷ record { id = mov; name = "mov" }
    ∷ record { id = ptrtoint; name = "ptrtoint" }
    ∷ record { id = inttoptr; name = "inttoptr" }
    ∷ record { id = muladd; name = "muladd" }
    ∷ record { id = mulsub; name = "mulsub" }
    ∷ record { id = rsub; name = "rsub" }
    ∷ []

-- `instr_id2string_[instr]`, an empty string where there is no entry.
abbrev pub name_of : OpId → List Entry → String
name_of instr [] = ""
name_of instr (e ∷ es) = if number instr == number e.id then e.name else name_of instr es

unfoldable pub get_instr_op_name : OpId → String
get_instr_op_name instr = name_of instr instr_id2string

unfoldable pub print_cmp_type : CmpOp → String
print_cmp_type ge = "sge"
print_cmp_type gt = "sgt"
print_cmp_type le = "sle"
print_cmp_type lt = "slt"
print_cmp_type eq = "eq"
print_cmp_type ne = "ne"

unfoldable pub print_fcmp_type : CmpOp → String
print_fcmp_type ge = "uge"
print_fcmp_type gt = "ugt"
print_fcmp_type le = "ule"
print_fcmp_type lt = "ult"
print_fcmp_type eq = "ueq"
print_fcmp_type ne = "une"
