-- ===== src/Lab12.antt =====
-- lab12/: bounded queues of 1024 keys between producers and consumers.
pub mod GiantLock
pub mod Tickets
