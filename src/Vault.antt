-- ===== src/Vault.antt =====
-- crates/daimon-vault: the references to credentials.
pub mod Refspec
