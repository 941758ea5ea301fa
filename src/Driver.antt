-- ===== src/Driver.antt =====
-- crates/daimon-driver: the contract of the drivers, the validation of parameters, and the driver
-- that interprets declarative profiles.
pub mod Class
pub mod Param
pub mod Returns
pub mod Profile
pub mod Render
pub mod Connector
