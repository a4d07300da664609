-- ===== src/Scheduler.antt =====
-- src/bioseasy/scheduler.py: when a scheduled backup starts, and when an owner is told.
pub mod HourMinute
pub mod Window
pub mod Retry
pub mod Decide
mod Samples
