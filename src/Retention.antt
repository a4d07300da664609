-- ===== src/Retention.antt =====
-- Retention of src/bioseasy/snapshots.py: which generations a policy keeps, and the removal of the
-- rest. A generation is named by its directory; the list is newest first, as `list_snapshots`
-- returns it. The calendar (`astimezone`, `isocalendar`) is Python's: a parameter.
pub mod Policy
pub mod Plan
pub mod Rules
pub mod Keeps
pub mod Again
mod Samples
