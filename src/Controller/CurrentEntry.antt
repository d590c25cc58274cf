-- ===== src/Controller/CurrentEntry.antt =====
-- The current entry under moves, and the validation of its index (src-tauri/src/playback/controller.rs).
use transonic.Prelude.{
  ℕ, String, ◌≤◌, ◌<◌, ◌≡◌, ◌↔◌, ◌∙◌, ap, sym, refl, arith, Option, none, some, List, [], ◌∷◌,
  length, get_elem?, lt_of_get_elem?, leb, lt→ltb, if◌then◌else◌, u32_mod, u32_from,
}
use transonic.Result.{ok, err}
use transonic.Models.{SongResponse, PlaybackStatus}
use transonic.Controller.Helpers.{validate_queue_index, current_queue_entry}
use transonic.Controller.QueueOps.{moved_status}
use transonic.Controller.Invariant.{IndexInRange}
use transonic.Controller.Invariant.Insert.{length-insert}
use transonic.Controller.Invariant.Move.{get_elem?-some}
use transonic.Controller.Invariant.Queue.{validate_queue_index-IndexInRange}
use transonic.Queue.Indices.{IsIncreasing, AllBelow}
use transonic.Queue.IndexMap.{
  moved_insert_at, moved_queue_index_map, apply_queue_index_map, mapped_queue_index, flatten_option,
}
use transonic.Queue.IndexMap.Segments.{picked, stayed, length-picked-stayed}
use transonic.Queue.IndexMap.Moved.{apply-moved, split_at_gap}
use transonic.Queue.IndexMap.Follows.{moved_follows, moved_map-some}

module _ {ℓ} {A : Type ℓ} (moving : List ℕ) (insert_before : ℕ) (queue : List A)
    (increasing : IsIncreasing 0 moving) (below : AllBelow (length queue) moving)
    (inside : insert_before ≤ length queue) where
  -- The queue behind a move is as long as the queue before it. The moved indices are strictly increasing and in range,
  -- and the gap is at most at the end of the queue.
  length-moved :
      length
        (apply_queue_index_map queue (moved_queue_index_map (length queue) moving insert_before))
      ≡ length queue
  length-moved =
      let at = moved_insert_at moving insert_before in
      let kept = stayed moving 0 queue in
      let chosen = picked moving 0 queue in
      ap length (
        apply-moved moving insert_before queue increasing below inside
        ∙ sym (split_at_gap moving insert_before queue increasing below inside))
      ∙ omega (arith, length-insert at kept chosen, length-picked-stayed moving 0 queue)

mapped_value :
    (o : Option (Option ℕ)) (j : ℕ)
    → o ≡ some (some j)
    → j < u32_mod
    → elim (flatten_option o) [ none ↦ none | some value ↦ u32_from value ] ≡ some j
mapped_value none j e h = cc
mapped_value (some none) j e h = cc
mapped_value (some (some v)) j e h =
    let same : v ≡ j = cc in
    let below = lt→ltb v u32_mod (omega (arith, same, h)) in rw below (ap some same)

mapped_to :
    (index_map : List (Option ℕ)) (i j : ℕ)
    → get_elem? index_map i ≡ some (some j)
    → j < u32_mod
    → mapped_queue_index (some i) index_map ≡ some j
unfolding mapped_queue_index
mapped_to index_map i j e h = mapped_value (get_elem? index_map i) j e h

moved_entry :
    (queue : List SongResponse) (current_index : Option ℕ) (moving : List ℕ) (insert_before : ℕ)
    → IsIncreasing 0 moving
    → AllBelow (length queue) moving
    → insert_before ≤ length queue
    → length queue < u32_mod
    → IndexInRange queue current_index
    → let index_map = moved_queue_index_map (length queue) moving insert_before in
      current_queue_entry
        (apply_queue_index_map queue index_map)
        (mapped_queue_index current_index index_map)
      ≡ current_queue_entry queue current_index
unfolding current_queue_entry mapped_queue_index
moved_entry queue none moving insert_before increasing below inside small r = refl
moved_entry queue (some i) moving insert_before increasing below inside small r =
    let index_map = moved_queue_index_map (length queue) moving insert_before in
    let queue' = apply_queue_index_map queue index_map in
    let new = moved_map-some moving (length queue) insert_before i r in
    let entry = get_elem?-some queue i r in
    let follows = moved_follows moving insert_before queue increasing below inside i new.0 new.1 in
    let new_inside = lt_of_get_elem? queue' new.0 entry.0 (follows ∙ entry.1) in
    let size = length-moved moving insert_before queue increasing below inside in
    ap (λ o. current_queue_entry queue' o)
      (mapped_to index_map i new.0 new.1 (omega (arith, new_inside, size, small)))
    ∙ follows

-- After a move of strictly increasing indices in range to a gap of a queue of fewer than 2³²
-- entries, the current entry is the one that was current before, wherever it stands now. The
-- current index, if there is one, is in range before the move.
pub moved_status-current_queue_entry :
    (status : PlaybackStatus) (moving : List ℕ) (insert_before : ℕ)
    → IsIncreasing 0 moving
    → AllBelow (length status.queue) moving
    → insert_before ≤ length status.queue
    → length status.queue < u32_mod
    → IndexInRange status.queue status.current_index
    → let moved =
        moved_status (moved_queue_index_map (length status.queue) moving insert_before) status in
      current_queue_entry moved.queue moved.current_index
      ≡ current_queue_entry status.queue status.current_index
unfolding moved_status
moved_status-current_queue_entry status moving insert_before increasing below inside small r =
    moved_entry status.queue status.current_index moving insert_before increasing below inside small
      r

accepts_below :
    (queue_len i : ℕ) (e : String)
    → i < queue_len
    → (if leb queue_len i then err e else ok (tt {0})) ≡ ok (tt {0})
accepts_below queue_len i e h = ground arith

pub accepts :
    (queue : List SongResponse) (index : Option ℕ)
    → IndexInRange queue index
    → validate_queue_index queue index ≡ ok tt
unfolding validate_queue_index
accepts [] none h = refl
accepts [] (some i) h = absurd (omega arith)
accepts (x ∷ xs) none h = refl
accepts (x ∷ xs) (some i) h = accepts_below (length (x ∷ xs)) i _ h

-- The validation accepts an index exactly if there is none or it is in range of the queue.
pub validate_queue_index_iff :
    (queue : List SongResponse) (index : Option ℕ)
    → (validate_queue_index queue index ≡ ok tt) ↔ IndexInRange queue index
validate_queue_index_iff queue index =
    (validate_queue_index-IndexInRange queue index tt, accepts queue index)
