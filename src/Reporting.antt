-- ===== src/Reporting.antt =====
-- The reporting of playback to the media server (src-tauri/src/playback/server_reporting.rs).
pub mod Clock
pub mod Sessions
pub mod Worker
pub mod Scrobbles
pub mod Heartbeats
pub mod PlayedTime
