-- ===== src/RouterOs.antt =====
-- crates/daimon-driver-firewall-routeros/src/lib.rs: the driver of RouterOS devices.
pub mod Command
pub mod Catalog
pub mod Dispatch
pub mod Verbs
