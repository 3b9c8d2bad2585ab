-- ===== src/Server.antt =====
-- packages/provider/crates/provider-core/src/server.rs: the planes that browsers reach.
pub mod Access
pub mod Frames
pub mod Client
pub mod Messages
pub mod Viewer
pub mod Files
pub mod Uploads
pub mod Pulls
pub mod Stills
