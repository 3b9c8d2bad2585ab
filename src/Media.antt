-- ===== src/Media.antt =====
-- The video and audio paths, from the device's stream to what a browser decodes.
pub mod AnnexB
pub mod Scrcpy
pub mod Hevc
