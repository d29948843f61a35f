-- ===== src/Exec.antt =====
-- The exec command of inengine-core/src/commands/exec.
pub mod Pipe
pub mod Process
pub mod Wait
mod Sample
pub mod Run
