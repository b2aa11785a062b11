-- ===== src/Debugging.antt =====
-- The programs of content/exercises/f4 that the reader is to debug. An `int` operation that
-- overflows and an access out of range are undefined in C: both are `none` here.
pub mod Search
pub mod Sums
pub mod Buffers
pub mod Table
mod Tests
