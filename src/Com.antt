-- ===== src/Com.antt =====
-- Compute agents: crates/craftec-com.
pub mod Scheduler
pub mod Tests
