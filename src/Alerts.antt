-- ===== src/Alerts.antt =====
-- Where alerts go: src/bioseasy/connectors.py, and the routes of src/bioseasy/app.py that store a connector.
pub mod Connectors
mod Samples
