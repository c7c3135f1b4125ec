-- ===== src/Lab10.antt =====
-- lab10/: spin locks around a shared counter, one shared access at a time.
pub mod Exclusion
pub mod Safety
pub mod Spin
mod Tests
