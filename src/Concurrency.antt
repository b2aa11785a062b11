-- ===== src/Concurrency.antt =====
-- content/exercises/c1: the C++ exercises on atomics.
pub mod Counters
pub mod Primitives
pub mod Treiber
pub mod Tests
