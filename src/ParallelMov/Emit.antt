-- ===== src/ParallelMov/Emit.antt =====
-- parallel_mov of src/codegen_new/codegen.cc: what it emits for moves between registers, values and
-- slots of the stack, and what that does.
pub mod Offsets
pub mod Stores
pub mod Memory
pub mod Loads
pub mod Sound
use poly_cminus.Prelude.{
  ℕ, zero, suc, ◌+◌, ◌==◌, ◌&&◌, ◌||◌, length, ltb, Bool, true, false, not, if◌then◌else◌, Option,
  none, some, ◌>>=◌, List, [], ◌∷◌, ◌++◌,
}
use poly_cminus.Uses.{put}
use poly_cminus.ParallelMov.{MoveType, ireg, freg, Edge, topo_sort}

-- `armval`: a register, which may be a float one, a value, a slot of the stack for integers and
-- pointers, and one for floats.
pub data Armval : Type 0 where
  reg : ℕ → Bool → Armval
  value : ℕ → Armval
  int_slot : ℕ → Armval
  float_slot : ℕ → Armval

pub record Move : Type 0 where
  pub to : Armval
  pub from : Armval

-- The instructions that are emitted: a store and a load by the register and the offset from the
-- stack pointer, the ones by the register and the register of the offset, and the moves of an
-- immediate, a register and a value. `set_value` is what Codegen::move emits for a value.
pub data Instr : Type 0 where
  st : ℕ → ℕ → Instr
  ld : ℕ → ℕ → Instr
  stx : ℕ → ℕ → Instr
  ldx : ℕ → ℕ → Instr
  set_imm : ℕ → ℕ → Instr
  mov : ℕ → ℕ → Instr
  set_value : ℕ → ℕ → Instr

abbrev pub is_int_move : Move → Bool
is_int_move m = elim (m.to) [
  | reg id is_float ↦ not is_float
  | value v ↦ false
  | int_slot n ↦ true
  | float_slot n ↦ false
]

abbrev pub moves_int : List Move → List Move
moves_int [] = []
moves_int (m ∷ ms) = if is_int_move m then m ∷ moves_int ms else moves_int ms

abbrev pub moves_float : List Move → List Move
moves_float [] = []
moves_float (m ∷ ms) = if is_int_move m then moves_float ms else m ∷ moves_float ms

-- `std::get` of the slot; `none` stands for its exception.
abbrev pub offset_of : MoveType → Armval → Option ℕ
offset_of kind (int_slot n) = elim kind [ ireg ↦ some n | freg ↦ none ]
offset_of kind (float_slot n) = elim kind [ ireg ↦ none | freg ↦ some n ]
offset_of kind a = none

abbrev pub edge_of : Armval → Armval → List Edge
edge_of (reg to f) (reg from g) = record { from = from; to = to } ∷ []
edge_of to from = []

-- The graph of the moves between registers.
abbrev pub reg_edges : List Move → List Edge
reg_edges [] = []
reg_edges (m ∷ ms) = edge_of m.to m.from ++ reg_edges ms

abbrev pub movs : List Edge → List Instr
movs [] = []
movs (e ∷ es) = mov e.to e.from ∷ movs es

-- `Instgen::st_d` to an offset from the stack pointer: one that does not fit the instruction goes
-- through `temp_lhs_reg`.
abbrev pub st_d : ℕ → ℕ → ℕ → List Instr
st_d temp r offset =
    if ltb offset 2048 then st r offset ∷ [] else set_imm temp offset ∷ stx r temp ∷ []

-- `Instgen::ld_d`.
abbrev pub ld_d : ℕ → ℕ → ℕ → List Instr
ld_d temp r offset =
    if ltb offset 2048 then ld r offset ∷ [] else set_imm temp offset ∷ ldx r temp ∷ []

module _ (kind : MoveType) (temp growth : ℕ) where
  abbrev pub str : ℕ → ℕ → List Instr
  str r offset = elim kind [ ireg ↦ st_d temp r offset | freg ↦ st r offset ∷ [] ]

  abbrev pub ldr : ℕ → ℕ → List Instr
  ldr r offset = elim kind [ ireg ↦ ld_d temp r offset | freg ↦ ld r offset ∷ [] ]

  abbrev pub store_to : ℕ → Armval → List Instr
  store_to offset (reg id is_float) = str id (offset + growth)
  store_to offset (value v) = set_value temp v ∷ str temp (offset + growth)
  store_to offset (int_slot n) = ldr temp (n + growth) ++ str temp (offset + growth)
  store_to offset (float_slot n) = ldr temp (n + growth) ++ str temp (offset + growth)

  abbrev pub to_memory_one : Move → Option (List Instr)
  to_memory_one m = elim (m.to) [
    | reg id is_float ↦ some []
    | a ↦ offset_of kind a >>= λ offset. some (store_to offset m.from)
  ]

  -- The first loop: what goes to the stack.
  abbrev pub to_memory : List Move → Option (List Instr)
  to_memory [] = some []
  to_memory (m ∷ ms) = to_memory_one m >>= λ is. to_memory ms >>= λ rest. some (is ++ rest)

  abbrev pub load_to : Armval → Armval → List Instr
  load_to (reg to f) (value v) = set_value to v ∷ []
  load_to (reg to f) (int_slot n) = ldr to (n + growth)
  load_to (reg to f) (float_slot n) = ldr to (n + growth)
  load_to to from = []

  -- The last loop: what comes from values and from the stack.
  abbrev pub from_memory : List Move → List Instr
  from_memory [] = []
  from_memory (m ∷ ms) = load_to m.to m.from ++ from_memory ms

  -- The body of the loop over the two kinds.
  abbrev pub emit_moves : ℕ → ℕ → List Move → Option (List Instr)
  emit_moves rounds depth ms = to_memory ms >>= λ first.
      topo_sort kind rounds depth (reg_edges ms) >>= λ order.
      some (first ++ (movs order ++ from_memory ms))

abbrev pub same_armval : Armval → Armval → Bool
same_armval (reg a f) (reg b g) = a == b && (if f then g else not g)
same_armval (value a) (value b) = a == b
same_armval (int_slot a) (int_slot b) = a == b
same_armval (float_slot a) (float_slot b) = a == b
same_armval a b = false

abbrev pub is_among : List Move → Move → Bool
is_among [] m = false
is_among (d ∷ ms) m = (same_armval m.to d.to && same_armval m.from d.from) || is_among ms m

-- The assertions that the moves are a set.
abbrev pub are_unique : List Move → Bool
are_unique [] = true
are_unique (m ∷ ms) = not (is_among ms m) && are_unique ms

-- `parallel_mov`, with its registers for temporary values: the instructions for integers, then those
-- for floats.
abbrev pub parallel_mov : ℕ → ℕ → ℕ → ℕ → ℕ → List Move → Option (List Instr × List Instr)
parallel_mov temp temp_float growth rounds depth ms =
    if are_unique (moves_int ms) && are_unique (moves_float ms)
    then (emit_moves ireg temp growth rounds depth (moves_int ms) >>= λ ints.
        emit_moves freg temp_float growth rounds depth (moves_float ms) >>= λ floats.
        some (ints, floats))
    else none

-- The registers of one kind, and the stack.
pub record Machine : Type 0 where
  pub regs : ℕ → ℕ
  pub slots : ℕ → ℕ

module _ (value_of : ℕ → ℕ) where
  abbrev pub exec_one : Instr → Machine → Machine
  -- An offset of 2048 or more does not fit a store or a load, which then is no instruction.
  exec_one (st r o) m = if ltb o 2048 then record m { slots = put m.slots o (m.regs r) } else m
  exec_one (ld r o) m = if ltb o 2048 then record m { regs = put m.regs r (m.slots o) } else m
  exec_one (stx r a) m = record m { slots = put m.slots (m.regs a) (m.regs r) }
  exec_one (ldx r a) m = record m { regs = put m.regs r (m.slots (m.regs a)) }
  exec_one (set_imm r n) m = record m { regs = put m.regs r n }
  exec_one (mov to from) m = record m { regs = put m.regs to (m.regs from) }
  exec_one (set_value r v) m = record m { regs = put m.regs r (value_of v) }

  abbrev pub exec : List Instr → Machine → Machine
  exec [] m = m
  exec (i ∷ is) m = exec is (exec_one i m)

  -- What an operand is worth.
  abbrev pub worth : ℕ → Machine → Armval → ℕ
  worth growth m (reg id is_float) = m.regs id
  worth growth m (value v) = value_of v
  worth growth m (int_slot n) = m.slots (n + growth)
  worth growth m (float_slot n) = m.slots (n + growth)
