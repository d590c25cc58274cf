-- ===== src/Queue.antt =====
-- The pure queue arithmetic of src-tauri/src/playback/controller.rs.
pub mod Indices
pub mod IndexMap
pub mod PlayNext
