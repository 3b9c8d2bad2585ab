-- ===== src/Tests/Core.antt =====
-- The shared core on concrete histories.
pub mod Sessions
pub mod Pool
pub mod Cleanups
pub mod Preloads
pub mod Hosts
pub mod Signed
pub mod Coordinators
