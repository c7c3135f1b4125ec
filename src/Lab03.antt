-- ===== src/Lab03.antt =====
-- lab03/: primes in a range, counted by ten threads.
pub mod Count
pub mod Primes
mod Tests
