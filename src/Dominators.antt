-- ===== src/Dominators.antt =====
-- src/Optimize/Dominators.cc and include/Optimize/PostDominator.hh. The second has the code of the
-- first with predecessors and successors exchanged: `ahead` are the blocks that the depth-first
-- search goes to, `behind` those that the dominators are merged over. `none` is a failed assertion,
-- a null pointer that is followed, or that the fuel is used up.
pub mod Search
pub mod Iteration
pub mod Frontier
pub mod Run
pub mod Visits
pub mod Walks
pub mod Fixed
pub mod Climbs
pub mod Rounds
pub mod Found
pub mod Sound
mod Tests
