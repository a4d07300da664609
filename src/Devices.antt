-- ===== src/Devices.antt =====
-- Devices: their settings (src/bioseasy/defaults.py), their status (src/bioseasy/status.py) and the
-- steps that set them up (src/bioseasy/runtime.py).
pub mod Defaults
pub mod Status
pub mod Setup
pub mod Discovery
mod Samples
