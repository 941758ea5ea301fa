-- ===== src/Anchor.antt =====
-- crates/daimon-anchor: the hash chain over the audit log.
pub mod Canonical
pub mod Verify
pub mod Chain
