-- ===== src/DeadCode.antt =====
-- The class DeadCode of include/Optimize/DeadCode.hh.
pub mod Defs
pub mod Started
pub mod Live
pub mod SweepBlock
pub mod Sweep
pub mod Dead
mod Tests
use poly_cminus.Prelude.{
  ℕ, zero, suc, ◌+◌, ◌==◌, ◌&&◌, ◌||◌, ltb, Bool, true, false, not, if◌then◌else◌, Option, none,
  some, ◌>>=◌, List, [], ◌∷◌, ◌++◌,
}
use poly_cminus.Uses.{Use, Store, put, operand_at, set_operand, remove_use_of_ops}
use poly_cminus.Types.{Ty, is_integer_type, is_float_type, is_void_type}
use poly_cminus.IrCheck.Values.{Kind, Class, Module, is_instruction, every}
use poly_cminus.IrCheck.Structure.{get_terminator}
use poly_cminus.IrCheck.Checks.{instructions_of}
use poly_cminus.Worklist.{Pending, each, work}
use poly_cminus.FuncInfo
use poly_cminus.FuncInfo.{Program, Pure, is_pure_function}

abbrev pub Marked : Type 0
Marked = ℕ → Bool

module _ (pure : Pure) (p : Program) where
  -- `get_callee()`, a function among the operands.
  abbrev pub get_callee : ℕ → Option ℕ
  get_callee i = operand_at (p.values.store.operands i) 0

  -- `none` where the callee is null, or is_pure_function exits.
  abbrev pub is_critical : ℕ → Option Bool
  is_critical i = elim (p.values.kind i) [
    | Kind.call ↦ get_callee i >>= λ callee. is_pure_function pure callee >>= λ b. some (not b)
    | Kind.br ↦ some true
    | Kind.ret ↦ some true
    | Kind.switch1 ↦ some true
    | Kind.store ↦ some true
    | _ ↦ some false
  ]

  -- The first loop of `mark`.
  abbrev pub mark_critical : List ℕ → Pending Marked → Option (Pending Marked)
  mark_critical [] s = some s
  mark_critical (i ∷ is) s = is_critical i >>= λ b.
      mark_critical is
        (if b then record { flags = put s.flags i true; queue = s.queue ++ i ∷ [] } else s)

  abbrev pub mark_def : ℕ → Pending Marked → Pending Marked
  mark_def def s =
      if s.flags def
      then s
      else record { flags = put s.flags def true; queue = s.queue ++ def ∷ [] }

  -- Is the operand an instruction of the same function?
  abbrev pub is_def : ℕ → ℕ → Bool
  is_def ins def =
      is_instruction (p.values.class_of def) && p.get_function def == p.get_function ins

  -- `shared_from_this` goes through the operand: `none` where it is null.
  abbrev pub mark_operands : ℕ → List (Option ℕ) → Pending Marked → Option (Pending Marked)
  mark_operands ins [] s = some s
  mark_operands ins (none ∷ os) s = none
  mark_operands ins (some def ∷ os) s =
      if is_def ins def then mark_operands ins os (mark_def def s) else mark_operands ins os s

  abbrev pub mark_ins : ℕ → Pending Marked → Option (Pending Marked)
  mark_ins ins s = mark_operands ins (p.values.store.operands ins) s

  -- `mark`, on fuel for the worklist.
  unfoldable pub mark : ℕ → ℕ → Option Marked
  mark fuel f =
      mark_critical (instructions_of p.values f) (record { flags = λ i. false; queue = [] })
      >>= λ s. work mark_ins fuel s >>= λ s'. some s'.flags

-- What the loop over the instructions of a block leaves: those that it keeps, the store, and the
-- number of those that it erases.
pub record Swept : Type 0 where
  pub kept : List ℕ
  pub store : Store
  pub ins_sweeped : ℕ

abbrev pub keep_ins : ℕ → Swept → Option Swept
keep_ins i s = some (record s { kept = i ∷ s.kept })

abbrev pub count_ins : Swept → Option Swept
count_ins s = some (record s { ins_sweeped = suc s.ins_sweeped })

unfoldable pub sweep_block : Marked → List ℕ → Store → Option Swept
sweep_block marked [] s = some (record { kept = []; store = s; ins_sweeped = 0 })
sweep_block marked (i ∷ is) s = (if marked i then some s else remove_use_of_ops i s) >>= λ s'.
    sweep_block marked is s' >>= (if marked i then keep_ins i else count_ins)

-- A function's blocks after `sweep`, and the number of instructions erased.
pub record SweptBlocks : Type 0 where
  pub instructions : ℕ → List ℕ
  pub store : Store
  pub ins_sweeped : ℕ

abbrev pub sweep_blocks : Marked → List ℕ → SweptBlocks → Option SweptBlocks
sweep_blocks marked [] s = some s
sweep_blocks marked (b ∷ bs) s = sweep_block marked (s.instructions b) s.store >>= λ r.
    sweep_blocks marked bs (record {
      instructions = put s.instructions b r.kept;
      store = r.store;
      ins_sweeped = s.ins_sweeped + r.ins_sweeped;
    })

-- The constants 0 and 0.0, and the types that functions return.
pub record Constants : Type 0 where
  pub zero_int : ℕ
  pub zero_fp : ℕ
  pub return_type : ℕ → Ty

module _ (c : Constants) (p : Program) where
  abbrev pub is_empty : List Use → Bool
  is_empty [] = true
  is_empty (entry ∷ uses) = false

  abbrev pub unused_users : Store → List Use → Bool
  unused_users s [] = true
  unused_users s (entry ∷ uses) = is_empty (s.use_list entry.user) && unused_users s uses

  -- The constant that a return gets; exit_if takes a type that is no integer and no float.
  abbrev pub zero_of : Ty → Option ℕ
  zero_of t =
      if is_integer_type t
      then some c.zero_int
      else if is_float_type t
      then some c.zero_fp
      else none

  abbrev pub rewrite_at : ℕ → ℕ → Store → Option Store
  rewrite_at f ret s =
      remove_use_of_ops ret s >>= λ s'. zero_of (c.return_type f) >>= λ v. set_operand ret 0 v s'

  abbrev pub rewrite_terminator : ℕ → Option ℕ → Store → Option Store
  rewrite_terminator f none s = some s
  rewrite_terminator f (some t) s = elim (p.values.kind t) [
    | Kind.ret ↦ rewrite_at f t s
    | _ ↦ some s
  ]

  abbrev pub rewrite_blocks : ℕ → List ℕ → Store → Option Store
  rewrite_blocks f [] s = some s
  rewrite_blocks f (b ∷ bs) s =
      rewrite_terminator f (get_terminator p.values b) s >>= rewrite_blocks f bs

  unfoldable pub try_rewrite_ret : ℕ → Option Store
  try_rewrite_ret f =
      let s = p.values.store in
      if is_void_type (c.return_type f) || p.is_main f
      then some s
      else if unused_users s (s.use_list f)
      then rewrite_blocks f (p.values.basic_blocks f) s
      else some s

-- The module after changes to its instructions and its store.
abbrev pub changed_to : Program → (ℕ → List ℕ) → Store → Program
changed_to p instructions s = record p {
  values = record (p.values) { instructions = instructions; store = s };
}

pub record Cleaned : Type 0 where
  pub program : Program
  pub changed : Bool

module _ (c : Constants) (pure : Pure) (fuel : ℕ) where
  -- The body of the loop over functions.
  abbrev pub clean : ℕ → Cleaned → Option Cleaned
  clean f r = try_rewrite_ret c r.program f >>= λ s.
      let p = changed_to r.program r.program.values.instructions s in
      mark pure p fuel f >>= λ marked.
      sweep_blocks marked (p.values.basic_blocks f)
        (record { instructions = p.values.instructions; store = s; ins_sweeped = 0 })
      >>= λ swept. some (record {
        program = changed_to p swept.instructions swept.store;
        changed = r.changed || ltb 0 swept.ins_sweeped;
      })

  abbrev pub clean_each : List ℕ → Cleaned → Option Cleaned
  clean_each [] r = some r
  clean_each (f ∷ fs) r = clean f r >>= clean_each fs

  -- The loop while a function changed, which exits after a number of rounds.
  unfoldable pub iterate : ℕ → Program → Option Program
  iterate zero p = none
  iterate (suc rounds) p =
      clean_each p.values.functions (record { program = p; changed = false }) >>= λ r.
      elim (r.changed) [ true ↦ iterate rounds r.program | false ↦ some r.program ]

-- `run`: the pure functions, then at most 1000 rounds.
unfoldable pub run : Constants → ℕ → ℕ → Program → Option Program
run c depth fuel p = FuncInfo.run p depth fuel >>= λ pure. iterate c pure fuel 1000 p
