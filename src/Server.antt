-- ===== src/Server.antt =====
-- server.py: the server of the course.
pub mod Mentor
pub mod Runner
pub mod Routes
pub mod Paths
mod Tests
