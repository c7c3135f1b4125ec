-- ===== src/Project1.antt =====
-- project1/: an external sort of fixed-size records: its buffered output, its runs and their buffers.
pub mod Bufio
pub mod Partition
pub mod Reads
pub mod Records
mod Tests
