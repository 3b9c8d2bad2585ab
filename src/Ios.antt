-- ===== src/Ios.antt =====
-- packages/provider/crates/backend-ios/src: what the iOS backend keeps on a device.
pub mod Files
pub mod Paths
pub mod Drop
pub mod Receive
