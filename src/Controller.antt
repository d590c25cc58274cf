-- ===== src/Controller.antt =====
-- `PlaybackController` of src-tauri/src/playback/controller.rs.
pub mod State
pub mod Exec
pub mod Helpers
pub mod Status
pub mod Stream
pub mod Gapless
pub mod Load
pub mod Events
pub mod QueueOps
pub mod Removal
pub mod Transport
pub mod Settings
pub mod Shared
pub mod Operations
pub mod CurrentEntry
pub mod Redaction
pub mod Restore
pub mod Untouched
pub mod Frame
pub mod Invariant
pub mod World
