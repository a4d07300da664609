-- ===== src/Web.antt =====
-- src/bioseasy/app.py: the routes that change accounts, and what the web process holds in memory.
pub mod Accounts
mod Samples
