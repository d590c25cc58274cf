-- ===== src/Controller/Frame.antt =====
-- What the controller's methods leave alone: methods that do not write the queue, its current entry,
-- its play-next length, its revision or its index map keep every predicate on these.
pub mod Inert
pub mod GaplessInert
pub mod EventsInert
pub mod QueueInert
use transonic.Prelude.{ℕ, String, Option, List}
use transonic.Models.{SongResponse}
use transonic.Controller.State.{Controller}

-- A predicate on the queue, the current index, the play-next length, the current song id, the
-- revision and the index map of the status.
abbrev pub QueuePredicate : Type 1
QueuePredicate = List SongResponse → Option ℕ → ℕ → Option String → ℕ → List (Option ℕ) → Type 0

abbrev pub OnQueue : QueuePredicate → Controller → Type 0
OnQueue Q c =
    Q c.status.queue c.status.current_index c.status.play_next_queue_len c.status.current_song_id
      c.status.queue_revision c.status.queue_index_map
