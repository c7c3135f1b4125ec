-- ===== src/Project3.antt =====
-- project3/: a wait-free atomic snapshot of one register for each thread.
pub mod Linearizable
pub mod Scan
mod Tests
pub mod Updates
pub mod WaitFree
pub mod Workers
