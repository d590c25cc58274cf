-- ===== src/Controller/Invariant.antt =====
-- The invariant of the controller's queue (src-tauri/src/playback/controller.rs): the current index
-- points into the queue, the current song is its entry, and the play-next length fits the queue.
pub mod Loads
pub mod Events
pub mod Queue
pub mod Insert
pub mod Move
pub mod Position
pub mod Transport
pub mod Settings
pub mod Removal
pub mod Reachable
use transonic.Prelude.{
  ℕ, ◌≤◌, ◌<◌, ◌≡◌, refl, sym, ◌∙◌, ap, String, Option, none, some, List, length, get_elem?,
  lt_of_get_elem?,
}
use mathlib.Core.Option
use transonic.Models.{SongResponse}
use transonic.Controller.State.{Controller}
use transonic.Controller.Helpers.{current_song_id, current_queue_entry}
use transonic.Controller.Frame.{QueuePredicate, OnQueue}

abbrev pub IndexInRange : List SongResponse → Option ℕ → Type 0
IndexInRange queue none = Unit
IndexInRange queue (some index) = index < length queue

abbrev pub Coherent : QueuePredicate
Coherent queue current_index play_next_queue_len song_id revision index_map =
    IndexInRange queue current_index
    × (play_next_queue_len ≤ length queue)
    × (song_id ≡ current_song_id queue current_index)

abbrev pub HasCoherentQueue : Controller → Type 0
HasCoherentQueue = OnQueue Coherent

-- The entry at an index is known.
abbrev pub Found : ℕ → SongResponse → QueuePredicate
Found index entry queue current_index play_next_queue_len song_id revision index_map =
    Coherent queue current_index play_next_queue_len song_id revision index_map
    × (get_elem? queue index ≡ some entry)

-- The entry at an index is the current one.
abbrev pub Loading : ℕ → SongResponse → QueuePredicate
Loading index entry queue current_index play_next_queue_len song_id revision index_map =
    Found index entry queue current_index play_next_queue_len song_id revision index_map
    × (current_index ≡ some index)

pub found_index :
    (queue : List SongResponse) (index : ℕ) (entry : SongResponse)
    → get_elem? queue index ≡ some entry
    → IndexInRange queue (some index)
found_index queue index entry h = lt_of_get_elem? queue index entry h

pub found_song :
    (queue : List SongResponse) (index : ℕ) (entry : SongResponse)
    → get_elem? queue index ≡ some entry
    → some entry.id ≡ current_song_id queue (some index)
unfolding current_song_id
found_song queue index entry h = sym (ap (Option.map (λ (e : SongResponse). e.id)) h)

-- A current entry that was found keeps the queue coherent.
pub found-Coherent :
    (queue : List SongResponse) (index : ℕ) (entry : SongResponse) (n : ℕ)
    → get_elem? queue index ≡ some entry
    → n ≤ length queue
    → IndexInRange queue (some index)
      × (n ≤ length queue)
      × (some entry.id ≡ current_song_id queue (some index))
found-Coherent queue index entry n h le =
    (found_index queue index entry h, le, found_song queue index entry h)

pub loading_song :
    (queue : List SongResponse) (current_index : Option ℕ) (index : ℕ) (entry : SongResponse)
    → get_elem? queue index ≡ some entry
    → current_index ≡ some index
    → some entry.id ≡ current_song_id queue current_index
loading_song queue current_index index entry h e =
    found_song queue index entry h ∙ sym (ap (λ i. current_song_id queue i) e)
