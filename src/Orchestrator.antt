-- ===== src/Orchestrator.antt =====
-- crates/daimon-orchestrator: plans, their persistence, execution and rollback.
pub mod Plan
pub mod Store
pub mod Create
pub mod Dispatch
pub mod Run
