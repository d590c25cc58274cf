-- ===== src/Tests.antt =====
-- The theorems on concrete queues and on one run of the controller.
mod Connect
mod Reporting
use transonic.Prelude.{
  ℕ, ◌+◌, ◌≤◌, ◌<◌, ◌≡◌, ◌↔◌, refl, arith, String, true, false, none, some, List, [], ◌∷◌, ◌++◌,
  take, drop, length, get_elem?, inl, inr,
}
use transonic.Result.{ok}
use transonic.Text.{to_ascii_lowercase}
use transonic.Models.{SongResponse, PlaybackStatus, empty_status}
use transonic.Controller.State.{Context, Env, applied}
use transonic.Controller.Exec.{Machine}
use transonic.Controller.Helpers.{
  current_song_id, current_queue_entry, redacted_stream_url, validate_queue_index,
}
use transonic.Controller.QueueOps.{restore_state, moved_status}
use transonic.Controller.Operations.{Operation, run, new, Reachable, started, operated}
use transonic.Controller.CurrentEntry.{moved_status-current_queue_entry, validate_queue_index_iff}
use transonic.Controller.Untouched.Operations.{transport_keeps_queue}
use transonic.Controller.Restore.{restore_state-Snapshot}
use transonic.Controller.Redaction.{redacted_stream_url_hides}
use transonic.Controller.Invariant.{HasCoherentQueue, IndexInRange}
use transonic.Controller.Invariant.Reachable.{Reachable-HasCoherentQueue}
use transonic.Queue.Indices.{dedup, sort, sorted_queue_indices, contains, IsIncreasing, AllBelow}
use transonic.Queue.Indices.Sorted.{sorted_queue_indices_sound}
use transonic.Queue.IndexMap.{moved_queue_index_map, removed_queue_index_map, apply_queue_index_map}
use transonic.Queue.IndexMap.Segments.{stayed}
use transonic.Queue.IndexMap.Moved.{moved_queue, apply-moved}
use transonic.Queue.IndexMap.Follows.{moved_follows}
use transonic.Queue.IndexMap.Removed.{apply-removed, removed_follows, removed_map-none_iff}
use transonic.Queue.PlayNext.{
  play_next_start_index, play_next_end_index, clamped_play_next_queue_len, is_play_next_queue_index,
  adjusted_play_next_queue_len_for_current_change,
}
use transonic.Queue.PlayNext.Region.{
  is_play_next_queue_index_iff, end-eq-start_add_clamped, clamped_bounds, adjusted_bounds,
  adjusted_region,
}

abbrev song : String → SongResponse
song id = record {
  id = id;
  path = none;
  title = id;
  album = none;
  artist = none;
  cover_art_id = none;
  display_cover_art_id = none;
  duration = none;
  size = none;
  content_type = none;
  suffix = none;
  bit_rate = none;
  media_type = none;
}

abbrev songs : List SongResponse
songs = song "a" ∷ song "b" ∷ song "c" ∷ []

abbrev four : List ℕ
four = 10 ∷ 20 ∷ 30 ∷ 40 ∷ []

abbrev chosen : List ℕ
chosen = 0 ∷ 2 ∷ []

chosen-IsIncreasing : IsIncreasing 0 chosen
chosen-IsIncreasing = (omega arith, (omega arith, tt))

chosen-AllBelow : AllBelow 4 chosen
chosen-AllBelow = (omega arith, (omega arith, tt))

apply-moved_example :
    apply_queue_index_map four (moved_queue_index_map 4 chosen 4) ≡ moved_queue chosen 4 four
apply-moved_example = apply-moved chosen 4 four chosen-IsIncreasing chosen-AllBelow (omega arith)

moved_follows_example :
    get_elem? (apply_queue_index_map four (moved_queue_index_map 4 chosen 4)) 2 ≡ some 10
moved_follows_example =
    moved_follows chosen 4 four chosen-IsIncreasing chosen-AllBelow (omega arith) 0 2
      (unfold moved_queue_index_map in refl)

apply-removed_example :
    apply_queue_index_map four (removed_queue_index_map 4 chosen) ≡ stayed chosen 0 four
apply-removed_example = apply-removed chosen four

removed_follows_example :
    get_elem? (apply_queue_index_map four (removed_queue_index_map 4 chosen)) 1 ≡ some 40
removed_follows_example = removed_follows chosen four 3 1 (unfold removed_queue_index_map in refl)

removed_map-none_iff_example :
    (get_elem? (removed_queue_index_map 4 chosen) 2 ≡ some none) ↔ (contains chosen 2 ≡ true)
removed_map-none_iff_example = removed_map-none_iff chosen 4 2 (omega arith)

sorted_queue_indices_sound_example :
    IsIncreasing 0 chosen
    × AllBelow 4 chosen
    × ((i : ℕ) → contains chosen i ≡ contains (2 ∷ 0 ∷ 2 ∷ []) i)
unfolding dedup sort
sorted_queue_indices_sound_example =
    sorted_queue_indices_sound (2 ∷ 0 ∷ 2 ∷ []) 4 chosen (unfold sorted_queue_indices in refl)

is_play_next_queue_index_iff_example :
    (is_play_next_queue_index 5 (some 1) 2 3 ≡ true) ↔ ((2 ≤ 3) × (3 < 4) × (3 < 5))
is_play_next_queue_index_iff_example =
    is_play_next_queue_index_iff 5 (some 1) 2 3 (omega arith) (omega arith)

end-eq-start_add_clamped_example :
    play_next_end_index 5 (some 1) 9
    ≡ play_next_start_index 5 (some 1) + clamped_play_next_queue_len 5 (some 1) 9
end-eq-start_add_clamped_example = end-eq-start_add_clamped 5 (some 1) 9 (omega arith) (omega arith)

clamped_bounds_example :
    (clamped_play_next_queue_len 5 (some 1) 9 ≤ 9)
    × (play_next_start_index 5 (some 1) + clamped_play_next_queue_len 5 (some 1) 9 ≤ 5)
clamped_bounds_example = clamped_bounds 5 (some 1) 9

adjusted_bounds_example :
    3 + 1 + adjusted_play_next_queue_len_for_current_change 6 (some 1) 3 (some 3) ≤ 6
adjusted_bounds_example = adjusted_bounds 6 (some 1) 3 3 (omega arith) (omega arith)

adjusted_region_example :
    let n' = adjusted_play_next_queue_len_for_current_change 6 (some 1) 3 (some 3) in
    (is_play_next_queue_index 6 (some 3) n' 4 ≡ true) ↔ (
      (is_play_next_queue_index 6 (some 1) 3 3 ≡ true)
      × (is_play_next_queue_index 6 (some 1) 3 4 ≡ true)
      × (3 < 4))
adjusted_region_example = adjusted_region 6 (some 1) 3 3 4 (omega arith) (omega arith) (λ e. cc)

-- Three songs, the second of which is current.
abbrev second_current : PlaybackStatus
second_current = record empty_status {
  queue = songs;
  current_index = some 1;
  play_next_queue_len = 1;
}

moved_status-current_queue_entry_example :
    let moved = moved_status (moved_queue_index_map 3 (1 ∷ []) 3) second_current in
    current_queue_entry moved.queue moved.current_index ≡ current_queue_entry songs (some 1)
moved_status-current_queue_entry_example =
    moved_status-current_queue_entry second_current (1 ∷ []) 3 (omega arith, tt) (omega arith, tt)
      (omega arith) (omega arith) (omega arith)

validate_queue_index_iff_example :
    (validate_queue_index songs (some 2) ≡ ok tt) ↔ IndexInRange songs (some 2)
validate_queue_index_iff_example = validate_queue_index_iff songs (some 2)

abbrev first_value : List (String × String) → String
first_value [] = ""
first_value ((key, value) ∷ pairs) = value

redacted_stream_url_hides_example :
    redacted_stream_url (record {
      path = "rest/stream";
      query_pairs = ("APIKEY", "one") ∷ ("id", "7") ∷ [];
      with_query = first_value;
    })
    ≡ redacted_stream_url (record {
      path = "rest/stream";
      query_pairs = ("APIKEY", "two") ∷ ("id", "7") ∷ [];
      with_query = first_value;
    })
unfolding to_ascii_lowercase
redacted_stream_url_hides_example =
    redacted_stream_url_hides "rest/stream" first_value (("APIKEY", "one") ∷ ("id", "7") ∷ [])
      (("APIKEY", "two") ∷ ("id", "7") ∷ [])
      (refl, inl (inr (inr (inr (inr (inl refl))))), (refl, inr refl, tt))

-- A world in which every call succeeds and nothing happens.
abbrev quiet : Env (Unit {0})
quiet = record {
  should_estimate_content_length = λ _ _ _. false;
  plan_load = λ position_ms _ _. record {
    stream_offset_seconds = none;
    local_start_position_ms = position_ms;
  };
  load = λ _ w. (ok tt, w);
  prepare = λ _ w. (ok 0, w);
  activate_prepared = λ _ w. (ok tt, w);
  clear_prepared = λ w. w;
  update_artwork = λ _ _ w. (ok tt, w);
  seek = λ _ w. (ok applied, w);
  current_position_ms = λ w. (ok 0, w);
  current_stream_info = λ w. (ok none, w);
  set_output_device = λ _ w. (ok tt, w);
  pause = λ w. (ok tt, w);
  resume = λ w. (ok tt, w);
  stop = λ w. (ok tt, w);
  report_state = λ _ w. w;
  server_report_state = λ _ w. w;
  server_clear = λ w. w;
  sync_queue = λ _ w. w;
  drain_events = λ w. ([], w);
  save = λ _ w. w;
  now = λ w. (0, w);
  spawn_process_native_events_after = λ _ w. w;
}

abbrev started_machine : Machine (Unit {0})
started_machine = record {
  controller = new (record { gapless_playback = true; transcoding_codecs = [] }) true none;
  world = tt;
}

abbrev append_songs : Operation
append_songs = Operation.append_to_queue songs

appended-Reachable : Reachable ⦃env = quiet⦄ (run ⦃env = quiet⦄ append_songs started_machine).1
unfolding new empty_status
appended-Reachable = operated started_machine append_songs (started _ true none tt) (omega arith)

Reachable-HasCoherentQueue_example :
    HasCoherentQueue (run ⦃env = quiet⦄ append_songs started_machine).1.controller
Reachable-HasCoherentQueue_example =
    Reachable-HasCoherentQueue ⦃env = quiet⦄ (run ⦃env = quiet⦄ append_songs started_machine).1
      appended-Reachable

abbrev client : Context
client = record {
  client_stream = λ request. ok (record {
    path = "rest/stream";
    query_pairs = ("id", request.id) ∷ [];
    with_query = first_value;
  });
  transcode_offset = false;
  playback_report = true;
  profile_id = none;
}

transport_keeps_queue_example :
    let machine = (run ⦃env = quiet⦄ append_songs started_machine).1 in
    let status = machine.controller.status in
    let status' = (run ⦃env = quiet⦄ (Operation.next client) machine).1.controller.status in
    (status'.queue ≡ status.queue)
    × (status'.queue_revision ≡ status.queue_revision)
    × (status'.queue_index_map ≡ status.queue_index_map)
transport_keeps_queue_example =
    transport_keeps_queue ⦃env = quiet⦄ (Operation.next client) tt
      (run ⦃env = quiet⦄ append_songs started_machine).1

restore_state-Snapshot_example :
    let status =
      (restore_state ⦃env = quiet⦄ "home" songs
        (some 1)
        1
        500
        started_machine).1.controller.status in
    (status.queue ≡ songs)
    × (status.current_index ≡ some 1)
    × (status.play_next_queue_len ≡ 1)
    × (status.current_song_id ≡ current_song_id songs (some 1))
unfolding play_next_start_index
restore_state-Snapshot_example =
    restore_state-Snapshot ⦃env = quiet⦄ "home" songs (some 1) 1 500 (omega arith) (omega arith)
      (omega arith) started_machine
