-- ===== src/Sccp.antt =====
-- include/Optimize/SCCPSolver.hh: sparse conditional constant propagation. Sccp/Lattice.antt is
-- the class Lattice, Sccp/Solver.antt the class SCCPSolver.
pub mod Lattice
pub mod Solver
