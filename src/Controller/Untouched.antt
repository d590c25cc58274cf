-- ===== src/Controller/Untouched.antt =====
-- The queue, its revision and its index map, for operations that do not change the queue (src-tauri/src/playback/controller.rs).
pub mod Loads
pub mod Events
pub mod Transport
pub mod Operations
use transonic.Prelude.{ℕ, ◌≡◌, Option, List}
use transonic.Models.{SongResponse}
use transonic.Controller.State.{Controller}
use transonic.Controller.Frame.{QueuePredicate, OnQueue}

-- A queue with a given revision and index map; its current entry is any.
abbrev pub SameQueue : List SongResponse → ℕ → List (Option ℕ) → QueuePredicate
SameQueue queue revision index_map queue' current_index play_next_queue_len song_id revision'
      index_map' =
    (queue' ≡ queue) × (revision' ≡ revision) × (index_map' ≡ index_map)

abbrev pub HasQueue : List SongResponse → ℕ → List (Option ℕ) → Controller → Type 0
HasQueue queue revision index_map c = OnQueue (SameQueue queue revision index_map) c
