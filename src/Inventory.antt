-- ===== src/Inventory.antt =====
-- crates/daimon-inventory: target references and the in-memory registry of managed targets.
pub mod Refspec
pub mod Target
pub mod Registry
