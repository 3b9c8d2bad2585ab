-- ===== src/Core/Supervisor.antt =====
-- packages/provider/crates/provider-core/src/supervisor.rs: the devices of a host. Supervisor.Device
-- is one device and what a poll does to it, Supervisor.Cleaning the run between two users,
-- Supervisor.Commands the host with the coordinator's commands, Supervisor.Uploads what an upload does
-- to it, Supervisor.Steps all that happens to
-- it, Supervisor.Setup its start, and Supervisor.Link its place behind the control client.
pub mod Device
pub mod Cleaning
pub mod Commands
pub mod Uploads
pub mod Steps
pub mod Sound
pub mod Spared
pub mod Safe
pub mod Deployed
pub mod Safety
pub mod Landing
pub mod Setup
pub mod Link
