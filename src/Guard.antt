-- ===== src/Guard.antt =====
-- crates/daimon-guard: policy, kill switch, approval inbox and the pre-flight check that joins them.
pub mod Error
pub mod Policy
pub mod Approvals
pub mod Kill
pub mod Watch
pub mod PreFlight
