-- ===== src/Health.antt =====
-- Health monitoring: crates/craftec-health.
pub mod Tracker
pub mod Scanner
pub mod Coordinator
pub mod Repair
pub mod Tests
