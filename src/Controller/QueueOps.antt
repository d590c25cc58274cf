-- ===== src/Controller/QueueOps.antt =====
-- The methods that change the queue (src-tauri/src/playback/controller.rs).
use transonic.Prelude.{
  ℕ, zero, suc, ◌+◌, ◌-◌, String, Bool, false, Option, none, some, List, [], ◌∷◌, ◌++◌, map, length,
  is_empty, is_some, get_elem?, take, drop, range_from, ltb, leb, ◌==◌, min, if◌then◌else◌,
  u32_or_max, saturating_add_u32,
}
use transonic.Result.{ok, err}
use transonic.Models.{SongResponse, PlaybackStatus, PlayingState, idle, stopped, is_loaded}
use transonic.Controller.State.{Env, Context, ServerPlaybackState}
use transonic.Controller.Exec.{Exec, pure, raise, lift, gets, call, modify, ◌>>=◌, ◌>>◌, when}
use transonic.Controller.Helpers.{validate_queue_index, current_song_id, clamp_play_next_queue_len}
use transonic.Controller.Status.{
  with_status, report_status, state, clear_gapless_preparation, clear_native_events,
  clear_server_reporting, sync_queue_state, persist_state, record_queue_change,
  reset_output_stream_recovery_attempts, current_entry, report_entry,
  sync_current_position_from_backend, sync_current_position_for_queue_mutation,
  sync_actual_stream_info_from_backend, ensure_current_index,
}
use transonic.Queue.Indices.{sorted_queue_indices}
use transonic.Queue.IndexMap.{
  IndexMap, moved_queue_index_map, apply_queue_index_map, mapped_queue_index, is_identity_from,
  flatten_option,
}
use transonic.Queue.PlayNext.{
  play_next_end_index, clamped_play_next_queue_len, option_eq,
  adjusted_play_next_queue_len_for_current_change,
}

abbrev pub out_of_range : String
out_of_range = "Playback queue index is out of range."

-- `PlayingState` of a queue that has just been replaced.
abbrev pub resting_state : List SongResponse → PlayingState
resting_state [] = idle
resting_state (_ ∷ _) = stopped

-- The new queue and current entry, with no error, interruption or seek left.
abbrev pub replaced_queue : List SongResponse → Option ℕ → ℕ → ℕ → PlaybackStatus → PlaybackStatus
replaced_queue entries current_index play_next_queue_len position_ms st = record st {
  queue = entries;
  current_index = current_index;
  play_next_queue_len = play_next_queue_len;
  current_position_ms = position_ms;
  current_song_id = current_song_id entries current_index;
}

abbrev pub insertion_map : ℕ → ℕ → ℕ → IndexMap
insertion_map queue_len insert_pos count =
    map (λ index. some (if ltb index insert_pos then index else index + count))
      (range_from 0 queue_len)

abbrev pub valid_index : Option ℕ → ℕ → Option ℕ
valid_index none queue_len = none
valid_index (some index) queue_len = if ltb index queue_len then some index else none

-- `Vec::remove`.
abbrev pub remove_at {ℓ} : {A : Type ℓ} → List A → ℕ → List A
remove_at [] i = []
remove_at (x ∷ xs) zero = xs
remove_at (x ∷ xs) (suc i) = x ∷ remove_at xs i

-- The current index after `remove_queue_index`, on the queue's new length.
abbrev pub index_after_remove : Option ℕ → ℕ → ℕ → Option ℕ
index_after_remove none remove_index queue_len = none
index_after_remove (some current_index) remove_index queue_len =
    if queue_len == 0
    then none
    else if ltb remove_index current_index
    then some (current_index - 1)
    else if ltb current_index remove_index
    then some current_index
    else some (min remove_index (queue_len - 1))

abbrev pub first_surviving : List ℕ → IndexMap → Option ℕ
first_surviving [] index_map = none
first_surviving (i ∷ indices) index_map =
    let rest = first_surviving indices index_map in
    if is_some (flatten_option (get_elem? index_map i)) then some i else rest

abbrev pub count_where : (ℕ → Bool) → List ℕ → ℕ
count_where p [] = 0
count_where p (i ∷ indices) = let rest = count_where p indices in if p i then suc rest else rest

abbrev pub is_option : Option ℕ → ℕ → Bool
is_option none i = false
is_option (some j) i = j == i

-- The current index after `remove_queue_indices`: of `current`, of the replacement of a removed
-- current entry, or the last one.
abbrev pub index_after_removal : Option ℕ → Option ℕ → Option ℕ → IndexMap → ℕ → Option ℕ
index_after_removal none removed replacement index_map queue_len = none
index_after_removal (some current) removed replacement index_map queue_len =
    if queue_len == 0 then none else elim removed [
      | none ↦ flatten_option (get_elem? index_map current)
      | some _ ↦
          let last = some (queue_len - 1) in
          elim replacement [
            | none ↦ last
            | some index ↦ elim (flatten_option (get_elem? index_map index)) [
              | none ↦ last
              | some new ↦ some new
            ]
          ]
    ]

unfoldable pub moved_status : IndexMap → PlaybackStatus → PlaybackStatus
moved_status index_map st =
    let queue = apply_queue_index_map st.queue index_map in
    let current_index = mapped_queue_index st.current_index index_map in
    record st {
      queue = queue;
      current_index = current_index;
      play_next_queue_len =
          if option_eq current_index st.current_index
          then clamped_play_next_queue_len (length queue) current_index st.play_next_queue_len
          else adjusted_play_next_queue_len_for_current_change (length queue) st.current_index
              st.play_next_queue_len current_index;
      current_song_id = current_song_id queue current_index;
    }

module _ {W : Type 0} ⦃env : Env W⦄ where
  -- `self.persist_state(); self.report_status(); Ok(self.state())`.
  unfoldable pub finish : Exec W PlaybackStatus
  finish = do persist_state; report_status; state

  unfoldable pub finish_queue_change : Exec W PlaybackStatus
  finish_queue_change = do sync_queue_state; finish

  unfoldable pub end_deferred_restore : Exec W (Unit {0})
  end_deferred_restore = modify λ c. record c { restore_state_deferred = false }

  unfoldable pub clear_errors : Exec W (Unit {0})
  clear_errors = modify λ c. record c {
    status = record c.status {
      playback_error = none;
      interrupt_reason = none;
      pending_seek_position_ms = none;
    };
    interrupted_resume_state = none;
  }

  unfoldable pub set_playing_state : PlayingState → Exec W (Unit {0})
  set_playing_state playing_state =
      modify (with_status λ st. record st { playing_state = playing_state })

  unfoldable pub restore_queue :
      String → List SongResponse → Option ℕ → ℕ → ℕ → Exec W PlaybackStatus
  restore_queue profile_id queue current_index play_next_queue_len position_ms = do
    modify (
        with_status λ st.
          clamp_play_next_queue_len
            (replaced_queue queue current_index play_next_queue_len position_ms st))
    record_queue_change []
    set_playing_state (resting_state queue)
    clear_errors
    clear_gapless_preparation
    clear_server_reporting
    modify λ c. record c { active_profile_id = some profile_id; restore_state_deferred = false }
    report_status
    state

  unfoldable pub restore_state :
      String → List SongResponse → Option ℕ → ℕ → ℕ → Exec W PlaybackStatus
  restore_state profile_id queue current_index play_next_queue_len position_ms =
      elim (validate_queue_index queue current_index) [
        | ok _ ↦ restore_queue profile_id queue current_index play_next_queue_len position_ms
        | err _ ↦ do
          modify
              λ c. record c { active_profile_id = some profile_id; restore_state_deferred = false }
          state
      ]

  unfoldable pub set_queue : List SongResponse → Option ℕ → Exec W PlaybackStatus
  set_queue entries current_index = do
    lift (validate_queue_index entries current_index)
    end_deferred_restore
    call env.stop
    clear_gapless_preparation
    clear_server_reporting
    clear_native_events
    modify (with_status (replaced_queue entries current_index 0 0))
    record_queue_change []
    clear_errors
    modify (with_status λ st. record st { actual_stream_info = none })
    reset_output_stream_recovery_attempts
    set_playing_state (resting_state entries)
    finish_queue_change

  unfoldable pub clear_queue : Option Context → Exec W PlaybackStatus
  clear_queue context = do
    sync_current_position_from_backend
    end_deferred_restore
    stop_position_ms ← gets (λ c. c.status.current_position_ms)
    stop_entry ← current_entry
    clear_gapless_preparation
    call env.stop
    clear_native_events
    report_entry context stop_entry stop_position_ms ServerPlaybackState.stopped
    clear_server_reporting
    modify (with_status (replaced_queue [] none 0 0))
    record_queue_change []
    set_playing_state idle
    clear_errors
    modify (with_status λ st. record st { actual_stream_info = none })
    reset_output_stream_recovery_attempts
    finish_queue_change

  unfoldable pub stop_loaded_track : Exec W (Unit {0})
  stop_loaded_track = do
    call env.stop
    clear_gapless_preparation
    clear_native_events
    clear_server_reporting
    set_playing_state stopped

  unfoldable pub set_position : ℕ → Exec W PlaybackStatus
  set_position position_ms = do
    index ← ensure_current_index
    end_deferred_restore
    playing_state ← gets (λ c. c.status.playing_state)
    when (is_loaded playing_state) stop_loaded_track
    modify (
        with_status λ st. record st {
          current_song_id = current_song_id st.queue (some index);
          current_position_ms = position_ms;
          playback_error = none;
          interrupt_reason = none;
          pending_seek_position_ms = none;
        })
    sync_actual_stream_info_from_backend
    modify λ c. record c { interrupted_resume_state = none }
    reset_output_stream_recovery_attempts
    finish

  -- The first songs of an empty queue: the first becomes current, and stopped.
  unfoldable pub initialize_queue : List SongResponse → ℕ → Exec W (Unit {0})
  initialize_queue songs play_next_queue_len = do
    modify (
        with_status λ st. record st {
          queue = songs;
          current_index = some 0;
          play_next_queue_len = play_next_queue_len;
          current_song_id = current_song_id songs (some 0);
          playing_state = stopped;
        })
    record_queue_change []

  unfoldable pub insert_at_play_next_end : List SongResponse → Exec W (Unit {0})
  insert_at_play_next_end songs = do
    modify (with_status clamp_play_next_queue_len)
    status ← gets (λ c. c.status)
    let queue_len = length status.queue
    let insert_pos = play_next_end_index queue_len status.current_index status.play_next_queue_len
    modify (
        with_status λ st. record st {
          queue = take insert_pos st.queue ++ (songs ++ drop insert_pos st.queue);
        })
    record_queue_change (insertion_map queue_len insert_pos (length songs))
    modify (
        with_status λ st. clamp_play_next_queue_len (record st {
          play_next_queue_len =
              saturating_add_u32 st.play_next_queue_len (u32_or_max (length songs));
        }))

  unfoldable pub insert_after_current : List SongResponse → Exec W PlaybackStatus
  insert_after_current [] = state
  insert_after_current (song ∷ songs) = do
    end_deferred_restore
    clear_gapless_preparation
    sync_current_position_for_queue_mutation
    queue ← gets (λ c. c.status.queue)
    if is_empty queue
        then (do
          initialize_queue (song ∷ songs) (u32_or_max (length (song ∷ songs) - 1))
          modify (with_status clamp_play_next_queue_len))
        else insert_at_play_next_end (song ∷ songs)
    finish

  unfoldable pub append_to_queue : List SongResponse → Exec W PlaybackStatus
  append_to_queue [] = state
  append_to_queue (song ∷ songs) = do
    end_deferred_restore
    clear_gapless_preparation
    sync_current_position_for_queue_mutation
    queue ← gets (λ c. c.status.queue)
    if is_empty queue then initialize_queue (song ∷ songs) 0 else do
      modify (with_status λ st. record st { queue = st.queue ++ song ∷ songs })
      record_queue_change (map some (range_from 0 (length queue)))
    finish

  unfoldable pub move_queue_indices : List ℕ → ℕ → Exec W PlaybackStatus
  move_queue_indices indices insert_before = do
    queue_len ← gets (λ c. length c.status.queue)
    moving ← lift (sorted_queue_indices indices queue_len)
    if leb insert_before queue_len then pure tt else raise out_of_range
    let index_map = moved_queue_index_map queue_len moving insert_before
    if is_identity_from 0 index_map then state else do
      end_deferred_restore
      clear_gapless_preparation
      sync_current_position_for_queue_mutation
      modify (with_status (moved_status index_map))
      record_queue_change index_map
      finish_queue_change
