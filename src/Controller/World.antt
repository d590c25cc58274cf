-- ===== src/Controller/World.antt =====
-- What the methods of the controller keep of the outside world (src-tauri/src/playback/controller.rs).
pub mod Status
pub mod Streams
pub mod Loads
pub mod Events
pub mod Shared
