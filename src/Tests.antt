-- ===== src/Tests.antt =====
-- Runs on concrete inputs, and each result's theorem at an input that meets its hypotheses.
pub mod Adb
pub mod Media
pub mod Core
pub mod Scrcpy
pub mod Hevc
pub mod Bridge
pub mod Handshakes
pub mod Servers
pub mod Uploads
pub mod Drops
pub mod Receivers
