-- ===== src/Events.antt =====
-- content/exercises/c4: the exercises on event loops.
pub mod Timers
pub mod Watch
