-- ===== src/Onboarding.antt =====
-- How a device gets trusted: the pairing codes of src/bioseasy/handoff.py.
pub mod Handoff
mod Samples
