-- ===== src/Tests.antt =====
-- Runs at concrete inputs, one for each theorem of the results that has a premise.
pub mod Locks
pub mod Kernels
pub mod Blocks
pub mod Devices
pub mod Startup
pub mod Traps
pub mod Regions
pub mod Memory
pub mod Users
