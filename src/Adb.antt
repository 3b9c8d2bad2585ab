-- ===== src/Adb.antt =====
-- The ADB bridge, packages/provider/crates/adb-bridge/src.
pub mod Message
pub mod Bridge
pub mod Key
pub mod Auth
