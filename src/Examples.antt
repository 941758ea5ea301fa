-- ===== src/Examples.antt =====
-- The theorems at concrete inputs, on a small JSON, a small version type and a small installation.
mod Values
mod Records
mod Gate
mod Admin
mod Broker
mod Calls
mod Plans
mod Restarts
mod Chains
mod Drivers
mod Watch
