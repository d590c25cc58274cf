-- ===== src/Controller/Removal.antt =====
-- `remove_queue_index` and `remove_queue_indices` of src-tauri/src/playback/controller.rs.
use transonic.Prelude.{
  ℕ, ◌+◌, ◌-◌, Bool, false, not, ◌&&◌, ◌||◌, Option, none, some, List, [], ◌∷◌, length, is_empty,
  is_some, get_elem?, range_from, ltb, leb, ◌==◌, if◌then◌else◌, u32_or_max, u32_from,
}
use transonic.Models.{PlaybackStatus, idle, stopped, is_loaded}
use transonic.Controller.State.{Env, Context, ServerPlaybackState}
use transonic.Controller.Exec.{
  Exec, pure, raise, lift, gets, call, modify, ◌>>=◌, ◌>>◌, if_some, when,
}
use transonic.Controller.Helpers.{current_song_id}
use transonic.Controller.Status.{
  with_status, should_autoplay, report_status, state, clear_gapless_preparation,
  clear_native_events, clear_server_reporting, sync_queue_state, persist_state, record_queue_change,
  report_entry, sync_current_position_from_backend, sync_current_position_for_queue_mutation,
}
use transonic.Controller.Load.{load_track_at_index}
use transonic.Controller.Events.{process_native_events_inner}
use transonic.Controller.QueueOps.{
  out_of_range, valid_index, remove_at, index_after_remove, first_surviving, count_where, is_option,
  index_after_removal, end_deferred_restore, clear_errors, set_playing_state, finish_queue_change,
}
use transonic.Queue.Indices.{contains, sorted_queue_indices}
use transonic.Queue.IndexMap.{
  IndexMap, removed_queue_index_map, apply_queue_index_map, flatten_option,
}
use transonic.Queue.PlayNext.{clamped_play_next_queue_len, is_play_next_queue_index}

abbrev pub is_at : Option ℕ → ℕ → Bool
is_at none i = false
is_at (some j) i = j == i

-- The play-next length after `remove_queue_index`, before it is clamped. The code's two decrementing
-- branches differ only in their tests.
abbrev pub len_after_remove : Bool → Bool → ℕ → ℕ
len_after_remove removing_current was_in_play_next_queue len =
    if removing_current && ltb 0 len
    then len - 1
    else if was_in_play_next_queue
    then len - 1
    else len

abbrev pub u32_option : Option ℕ → Option ℕ
u32_option none = none
u32_option (some value) = u32_from value

-- An index of the new queue always fits a `u32`, since one of the old queue did.
unfoldable pub removed_one_status : ℕ → PlaybackStatus → PlaybackStatus
removed_one_status remove_index st =
    let queue_len = length st.queue in
    let current_index = valid_index st.current_index queue_len in
    let was_in_play_next_queue =
      is_play_next_queue_index queue_len st.current_index st.play_next_queue_len remove_index in
    let queue = remove_at st.queue remove_index in
    let next_current_index = index_after_remove current_index remove_index (length queue) in
    record st {
      queue = queue;
      current_index = next_current_index;
      play_next_queue_len = clamped_play_next_queue_len (length queue) next_current_index (
          len_after_remove (is_at current_index remove_index) was_in_play_next_queue
            st.play_next_queue_len);
      current_song_id = current_song_id queue next_current_index;
    }

abbrev pub removed_index : Option ℕ → List ℕ → Option ℕ
removed_index none removing = none
removed_index (some index) removing = if contains removing index then some index else none

-- The first entry behind the removed current one that survives.
abbrev pub replacement_index : Option ℕ → IndexMap → ℕ → Option ℕ
replacement_index none index_map queue_len = none
replacement_index (some removed) index_map queue_len =
    first_surviving (range_from (removed + 1) (queue_len - (removed + 1))) index_map

unfoldable pub surviving_play_next_len : ℕ → Option ℕ → ℕ → IndexMap → Option ℕ → ℕ
surviving_play_next_len queue_len current_index play_next_queue_len index_map replacement =
    count_where
      (λ index.
        is_some (flatten_option (get_elem? index_map index))
        && not (is_option replacement index)
        && is_play_next_queue_index queue_len current_index play_next_queue_len index)
      (range_from 0 queue_len)

unfoldable pub removed_status : List ℕ → PlaybackStatus → PlaybackStatus
removed_status removing st =
    let queue_len = length st.queue in
    let current_index = valid_index st.current_index queue_len in
    let removed = removed_index current_index removing in
    let index_map = removed_queue_index_map queue_len removing in
    let replacement = replacement_index removed index_map queue_len in
    let queue = apply_queue_index_map st.queue index_map in
    let next_current_index =
      u32_option (index_after_removal current_index removed replacement index_map (length queue)) in
    record st {
      queue = queue;
      current_index = next_current_index;
      play_next_queue_len = clamped_play_next_queue_len (length queue) next_current_index (
          u32_or_max (
            surviving_play_next_len queue_len st.current_index st.play_next_queue_len index_map
              replacement));
      current_song_id = current_song_id queue next_current_index;
    }

module _ {W : Type 0} ⦃env : Env W⦄ where
  -- Stop a loaded entry that is about to be removed.
  unfoldable pub stop_removed_entry : Option Context → ℕ → Exec W (Unit {0})
  stop_removed_entry context removed = do
    removed_position_ms ← gets (λ c. c.status.current_position_ms)
    removed_entry ← gets (λ c. get_elem? c.status.queue removed)
    call env.stop
    clear_native_events
    report_entry context removed_entry removed_position_ms ServerPlaybackState.stopped
    clear_server_reporting

  -- Load the entry that took the place of the removed one.
  unfoldable pub load_replacement : Context → ℕ → Bool → Exec W PlaybackStatus
  load_replacement context next_index autoplay = do
    sync_queue_state
    load_track_at_index context next_index 0 autoplay
    persist_state
    process_native_events_inner (some context) false
    report_status
    state

  -- The end of `remove_queue_index` where the current entry was removed.
  unfoldable pub replace_current : Option Context → Bool → Bool → Exec W PlaybackStatus
  replace_current context was_loaded autoplay = do
    modify (with_status λ st. record st { current_position_ms = 0 })
    clear_errors
    queue ← gets (λ c. c.status.queue)
    set_playing_state (if is_empty queue then idle else stopped)
    next ← gets (λ c. c.status.current_index)
    if not (is_empty queue) && was_loaded
        then if_some context
            (λ ctx.
              if_some next (λ next_index. load_replacement ctx next_index autoplay)
                finish_queue_change)
            finish_queue_change
        else finish_queue_change

  unfoldable pub remove_queue_index : Option Context → ℕ → Exec W PlaybackStatus
  remove_queue_index context remove_index = do
    queue_len ← gets (λ c. length c.status.queue)
    if leb queue_len remove_index then raise out_of_range else pure tt
    end_deferred_restore
    status ← gets (λ c. c.status)
    autoplay ← gets should_autoplay
    let removing_current = is_at (valid_index status.current_index queue_len) remove_index
    let was_loaded = is_loaded status.playing_state
    if removing_current
        then sync_current_position_from_backend
        else sync_current_position_for_queue_mutation
    clear_gapless_preparation
    when (removing_current && was_loaded) (stop_removed_entry context remove_index)
    modify (with_status (removed_one_status remove_index))
    record_queue_change (removed_queue_index_map queue_len (remove_index ∷ []))
    if removing_current then replace_current context was_loaded autoplay else finish_queue_change

  -- The end of `remove_queue_indices` where the current entry was among the removed.
  unfoldable pub pause_replacement : Option Context → Bool → Option ℕ → Exec W PlaybackStatus
  pause_replacement context was_loaded replacement = do
    clear_errors
    next ← gets (λ c. c.status.current_index)
    if was_loaded && is_some replacement
        then if_some context
            (λ ctx.
              if_some next (λ next_index. load_replacement ctx next_index false)
                finish_queue_change)
            finish_queue_change
        else finish_queue_change

  unfoldable pub rest_after_removal : Bool → Exec W (Unit {0})
  rest_after_removal removed_current = do
    queue ← gets (λ c. c.status.queue)
    when (is_empty queue || removed_current) (
        modify (
          with_status λ st. record st {
            current_position_ms = 0;
            playing_state = if is_empty queue then idle else stopped;
          }))

  unfoldable pub remove_queue_indices : Option Context → List ℕ → Exec W PlaybackStatus
  remove_queue_indices context indices = do
    queue_len ← gets (λ c. length c.status.queue)
    removing ← lift (sorted_queue_indices indices queue_len)
    end_deferred_restore
    status ← gets (λ c. c.status)
    let removed = removed_index (valid_index status.current_index queue_len) removing
    let was_loaded = is_loaded status.playing_state
    if is_some removed
        then sync_current_position_from_backend
        else sync_current_position_for_queue_mutation
    clear_gapless_preparation
    if_some removed (λ removed_index. when was_loaded (stop_removed_entry context removed_index))
        (pure tt)
    let index_map = removed_queue_index_map queue_len removing
    modify (with_status (removed_status removing))
    record_queue_change index_map
    rest_after_removal (is_some removed)
    if is_some removed
        then pause_replacement context was_loaded (replacement_index removed index_map queue_len)
        else finish_queue_change
