-- ===== src/Performance.antt =====
-- content/exercises/c6: the exercises on performance.
pub mod Counters
pub mod Batcher
pub mod Loops
pub mod Tests
