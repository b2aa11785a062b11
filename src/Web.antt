-- ===== src/Web.antt =====
-- web: the pages of the course in the browser.
pub mod Chat
pub mod History
pub mod Practice
pub mod Quiz
pub mod Frame
mod Tests
