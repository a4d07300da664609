-- ===== src/Backups.antt =====
-- Backups on disk: src/bioseasy/verify.py.
pub mod Verify
pub mod Inventory
pub mod Storage
pub mod Mounts
mod Samples
