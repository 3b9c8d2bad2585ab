-- ===== src/Core.antt =====
-- packages/provider/crates/provider-core/src: what every backend shares.
pub mod Session
pub mod Ports
pub mod AdbAuth
pub mod Cleanup
pub mod Preload
pub mod Supervisor
pub mod Tokens
pub mod Control
