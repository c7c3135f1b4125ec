-- ===== src/Lab04.antt =====
-- lab04/: the threads of the prime counter wait for work on a condition variable.
pub mod CondStep1
