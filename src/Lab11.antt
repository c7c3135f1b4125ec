-- ===== src/Lab11.antt =====
-- lab11/: a sorted list of keys that threads share.
pub mod Chain
pub mod CoarseList
pub mod FineGrained
pub mod History
pub mod LockFree
pub mod Nodes
pub mod Optimistic
pub mod Ownership
