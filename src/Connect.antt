-- ===== src/Connect.antt =====
-- Connect: shared playback over a websocket (src-tauri/src/connect.rs).
pub mod State
pub mod Gate
pub mod Runtime
pub mod Outbound
pub mod Messages
pub mod Link
pub mod Incoming
pub mod Session
pub mod Methods
pub mod Urls
pub mod Echoes
pub mod Held
pub mod Pushes
pub mod Generations
pub mod FirstSnapshot
