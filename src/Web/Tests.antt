-- ===== src/Web/Tests.antt =====
-- Runs of the pages against the server.
mod Answers
mod Practice
mod Quizzes
mod Frames
