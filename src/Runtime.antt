-- ===== src/Runtime.antt =====
-- crates/daimon-runtime: the capability registry, the dispatcher and the supervisor.
pub mod Registry
pub mod Dispatcher
pub mod Supervisor
