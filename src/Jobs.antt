-- ===== src/Jobs.antt =====
-- src/bioseasy/jobs.py: backup runs, their rows in the `runs` table, and the threads that end them.
pub mod Store
pub mod Sweep
pub mod Manager
pub mod Execute
pub mod History
pub mod Starting
mod Samples
