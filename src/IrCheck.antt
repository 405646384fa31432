-- ===== src/IrCheck.antt =====
-- src/Optimize/IRCheck.cc. A value is its identity, as pointers are in the source; a check returns
-- true where the source returns, and false where it throws or exits.
pub mod Values
pub mod Structure
pub mod Checks
pub mod Lists
pub mod Positions
pub mod Edges
pub mod UseLists
pub mod Definitions
mod Tests
