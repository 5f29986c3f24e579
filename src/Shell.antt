-- ===== src/Shell.antt =====
-- The shell lab: lab-4-shell/csapsh.c.
pub mod Jobs
pub mod Control
pub mod Parser
pub mod Pipeline
pub mod Eval
pub mod Main
mod Tests
