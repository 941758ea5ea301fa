-- ===== src/Core.antt =====
-- crates/daimon-core: capabilities; its envelopes stand in Runtime/Dispatcher.
pub mod Capability
