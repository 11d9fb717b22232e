-- ===== src/Tests.antt =====
-- Runs of the theorems on concrete inputs, over fixed-point numbers.
pub mod Samples
pub mod Vehicles
pub mod Maps
pub mod Positions
pub mod Drives
pub mod Services
pub mod Plans
pub mod Runtimes
pub mod Legacy
