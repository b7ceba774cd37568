-- ===== src/Tests.antt =====
-- Runs of the handlers on concrete worlds, and the theorems at concrete arguments.
pub mod Stores
pub mod Deletions
pub mod Requests
pub mod Reserves
pub mod Authority
pub mod Purges
pub mod Web
pub mod Recoveries
pub mod Settings
