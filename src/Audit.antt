-- ===== src/Audit.antt =====
-- crates/daimon-audit: the events of the audit log.
pub mod Event
