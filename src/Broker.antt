-- ===== src/Broker.antt =====
-- crates/daimon-broker, and the operations of crates/daimon-transport that it carries.
pub mod Op
pub mod Request
pub mod Admin
pub mod Lint
pub mod Execute
