-- ===== src/Accounts.antt =====
-- src/bioseasy/auth.py: accounts, sessions and the slowing down of guesses.
pub mod Throttle
pub mod Users
pub mod Tokens
mod Samples
