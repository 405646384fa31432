-- ===== src/Lib.antt =====
-- poly_cminus is a compiler from SysY to ARM assembly. src/parser and src/common build a syntax
-- tree, src/Builder translates it to an SSA form (include/MIR_new, src/MIR_new), the passes of
-- include/Optimize and src/Optimize rewrite this form, and src/codegen_new allocates registers and
-- prints assembly. src/compiler.cc runs the passes in order on one module; a pass reads and
-- changes the instruction lists of the blocks and the use lists of the values, and nothing else is
-- shared between passes.
--
-- Modelled are passes on the SSA form, and the constant folding and propagation they use:
--   Ir.antt: the values and integer instructions of include/MIR_new/Constant.h and Instruction.h,
--     and Value::replace_all_use_with of src/MIR_new/Value.cc. A ConstantInt is its type and the
--     32-bit pattern of its field; any other value is a number, as it is a pointer in the source.
--     Ir/Word.antt says what the operators do on words of 1, 32 and 64 bits, Ir/Exec.antt runs
--     straight-line code, where every other instruction is a parameter (a function of its operands
--     and a world), and Ir/Rewrite.antt is the loop over functions, blocks and instructions that
--     DivisionInvariant::run, MulWeaken::run and UselessOperationEli::run have in common.
--     Ir/Simulation.antt states what a rewrite owes, and its children prove that the loop then
--     keeps the meaning of a block.
--   DivisionInvariant.antt: include/Optimize/DivisionInvariant.hh, with mylog2, choose_multiplier
--     and its assertions, divide_by_invariant and replace_srem.
--   MulWeaken.antt: include/Optimize/MulWeaken.hh.
--   UselessOperationEli.antt: include/Optimize/UselessOperationEli.hh.
--   ConstFold.antt: include/Optimize/ConstFold.hh on integers; floats are a parameter of the solver.
--   Sccp.antt: include/Optimize/SCCPSolver.hh, the class Lattice in Sccp/Lattice.antt, the class
--     SCCPSolver in Sccp/Solver.antt (state, marking, phis and edges), Sccp/Solver/Visit.antt (the
--     instructions) Sccp/Solver/Solve.antt (the worklists) and
--     Sccp/Solver/Unknown.antt (process_unknown, the types of instructions being an argument).
--   Dominators.antt: src/Optimize/Dominators.cc and include/Optimize/PostDominator.hh on the graph of
--     one function: Dominators/Search.antt visits the blocks and removes those not reached,
--     Dominators/Iteration.antt has intersect and generate_idom, Dominators/Frontier.antt the
--     frontiers, the tree and is_dominator, and Dominators/Run.antt the passes. Of the removal of a
--     block in src/MIR_new/Function.cc the edges are kept.
--   IrCheck.antt: src/Optimize/IRCheck.cc on a module of values by their identity, in
--     IrCheck/Structure.antt (parents, positions, edges) and IrCheck/Checks.antt (phis, use lists,
--     operands, dominance and run). It uses the dominators and the store of Uses.antt; a check that
--     throws or exits is one that returns false.
--   Worklist.antt: the loop on a queue that FuncInfo and DeadCode have in common. Worklist/Closed.antt
--     asks a pass for the laws of its marks, and gives what the loop leaves and that it returns.
--   FuncInfo.antt: include/Optimize/FuncInfo.hh on the same module, with the types of values, which
--     function is `main`, and in which function an instruction stands.
--   DeadCode.antt: the class DeadCode of include/Optimize/DeadCode.hh. What it asks of FuncInfo is the
--     map of pure functions.
--   ParallelMov.antt: topo_sort of src/codegen_new/codegen.cc, which orders the moves between registers
--     of parallel_mov. ParallelMov/Emit.antt: parallel_mov itself, its instructions being values, with
--     st_d and ld_d of src/codegen_new/instgen.cc, and a machine of registers and stack slots that runs
--     them. What Codegen::move emits for a value is one instruction of it.
--   Printing.antt: the names in src/MIR_new/Module.cc and src/MIR_new/IRprinter.cc.
--   Types.antt: src/MIR_new/Type.cc, without printing.
--   Uses.antt: the operands of src/MIR_new/User.cc and the use lists of src/MIR_new/Value.cc, as one
--     store that the operations change; Uses/Consistent.antt says what ties the two.
--   RemoveUselessBr.antt: src/Optimize/RemoveUselessBr.cc on the blocks of one function, an
--     instruction that is no terminator being a number.
--   Arithmetic.antt: add_i32, sub_i32, mul_i32 and sdiv_i32 of src/utils.cc.
--   Prelude.antt: helpers on numbers, bits, lists and options.
--
-- A run that does not come to an end is one that uses up its fuel. MulWeaken's exponent and
-- DivisionInvariant's logarithm have fuel 32: an `int` has 32 bits, and the theorems show that
-- this is enough wherever the source's loop ends. SCCPSolver::solve takes its fuel as an argument,
-- and so do the dominators, for the depth of the search, for each climb of intersect, is_dominator
-- and the frontiers, and for the rounds of the iteration. The number of blocks is depth enough. The
-- worklists take twice the number of functions, or of instructions; DeadCode::run has the source's
-- bound of 1000 rounds. topo_sort takes twice the number of moves for its rounds, and the length of
-- a chain of moves for its depth. A climb takes twice the number of blocks; that the
-- rounds of the dominators' iteration and of SCCPSolver::solve come to an end is not shown.
--
-- Not modelled: the other passes on control flow, those on memory, the loop passes, the front end, code
-- generation and register allocation, and printing. The identities of a block in SSA order, which
-- the theorems on blocks require, are what the builder and Mem2Reg leave; phis, loads, stores,
-- calls and branches are the parameter's.
pub mod Prelude
pub mod Ir
pub mod Arithmetic
pub mod ConstFold
pub mod DivisionInvariant
pub mod Worklist
pub mod Dominators
pub mod IrCheck
pub mod FuncInfo
pub mod DeadCode
pub mod MulWeaken
pub mod ParallelMov
pub mod Printing
pub mod RemoveUselessBr
pub mod Sccp
pub mod Types
pub mod UselessOperationEli
pub mod Uses
