-- ===== src/Project2/LockTable.antt =====
-- The lock table and its deadlock detection: project2/include/locktable.hpp and
-- project2/src/locktable.cpp. The thread that calls is an argument, `self` or `tid`, where the code
-- asks `getThreadId()`. Every operation here runs under the mutex of `GlobalState`.
mod Defs
pub mod Creation
pub mod Grants
pub mod Invariant
pub mod Moves
pub mod Nodes
pub mod Unlocking
pub mod Operations
pub mod Visits
pub mod Termination
pub mod Waiting
unfoldable pub use Defs.*
