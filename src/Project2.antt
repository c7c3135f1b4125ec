-- ===== src/Project2.antt =====
-- project2/: record locks with deadlock detection.
pub mod Database
pub mod Worker
mod Schedule
pub mod System
pub mod Validator
pub mod LockTable
pub mod RwLock
