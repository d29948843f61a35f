-- ===== src/Scheduling.antt =====
-- The scheduler of inengine-core/src/scheduling.
pub mod Schedule
pub mod Scheduler
