-- ===== src/Controller/Transport.antt =====
-- Playing, pausing, seeking and moving between tracks (src-tauri/src/playback/controller.rs).
use transonic.Prelude.{
  ℕ, ◌-◌, Bool, true, false, not, ◌&&◌, ◌||◌, Option, none, some, [], length, is_some, ltb, leb,
  ◌==◌, if◌then◌else◌, checked_add_u32,
}
use mathlib.Core.Option
use transonic.Models.{
  PlaybackStatus, playing, paused, stopped, empty_status, is_loaded, is_playing_or_paused, state_eq,
}
use transonic.Controller.State.{Env, Context, applied, reload_required, ServerPlaybackState}
use transonic.Controller.Exec.{
  Exec, pure, raise, gets, call, modify, ◌>>=◌, ◌>>◌, if_some, when, ignore,
}
use transonic.Controller.Helpers.{current_song_id, prev_restart_threshold_ms}
use transonic.Controller.Status.{
  with_status, should_autoplay, report_status, state, clear_gapless_preparation,
  clear_native_events, clear_server_reporting, sync_queue_state, persist_state, record_queue_change,
  current_entry, report_entry, report_current_server_playback_stopped, clear_actual_stream_info,
  reset_output_stream_recovery_attempts, ensure_current_index, sync_current_position_from_backend,
  sync_actual_stream_info_from_backend,
}
use transonic.Controller.Gapless.{sync_gapless_for_current_track}
use transonic.Controller.Load.{load_track_at_index, reload_track_at_index_exact}
use transonic.Controller.Events.{process_native_events_inner}
use transonic.Controller.QueueOps.{out_of_range, clear_errors, set_playing_state, finish}
use transonic.Queue.PlayNext.{adjusted_play_next_queue_len_for_current_change}

-- The status at the head of another track of the queue, stopped.
unfoldable pub stopped_at : ℕ → PlaybackStatus → PlaybackStatus
stopped_at index st = record st {
  current_index = some index;
  current_song_id = current_song_id st.queue (some index);
  current_position_ms = 0;
  playing_state = stopped;
  playback_error = none;
  interrupt_reason = none;
  pending_seek_position_ms = none;
}

unfoldable pub adjust_play_next : Option ℕ → ℕ → PlaybackStatus → PlaybackStatus
adjust_play_next previous next st = record st {
  play_next_queue_len =
      adjusted_play_next_queue_len_for_current_change (length st.queue) previous
        st.play_next_queue_len (some next);
}

module _ {W : Type 0} ⦃env : Env W⦄ where
  -- `play` on a track that is loaded and paused.
  unfoldable pub resume_paused : Context → Exec W PlaybackStatus
  resume_paused context = do
    call env.resume
    modify (
        with_status λ st. record st {
          playing_state = playing;
          playback_error = none;
          interrupt_reason = none;
        })
    sync_actual_stream_info_from_backend
    reset_output_stream_recovery_attempts
    process_native_events_inner (some context) false
    entry ← current_entry
    position_ms ← gets (λ c. c.status.current_position_ms)
    report_entry (some context) entry position_ms ServerPlaybackState.playing
    report_status
    state

  unfoldable pub play : Context → Exec W PlaybackStatus
  play context = do
    index ← ensure_current_index
    playing_state ← gets (λ c. c.status.playing_state)
    requested_position_ms ← gets (λ c. c.status.current_position_ms)
    if state_eq playing_state paused then resume_paused context else do
      load_track_at_index context index requested_position_ms true
      process_native_events_inner (some context) false
      report_status
      state

  unfoldable pub play_queue_index : Context → ℕ → Exec W PlaybackStatus
  play_queue_index context index = do
    queue_len ← gets (λ c. length c.status.queue)
    playing_state ← gets (λ c. c.status.playing_state)
    if leb queue_len index then raise out_of_range else pure tt
    when (is_loaded playing_state) do
      sync_current_position_from_backend
      position_ms ← gets (λ c. c.status.current_position_ms)
      report_current_server_playback_stopped context position_ms
    call env.stop
    clear_native_events
    modify λ c. record c {
      status = record (stopped_at index (adjust_play_next c.status.current_index index c.status)) {
        actual_stream_info = none;
      };
      interrupted_resume_state = none;
    }
    persist_state
    play context

  unfoldable pub pause_with_context : Option Context → Exec W PlaybackStatus
  pause_with_context context = do
    sync_current_position_from_backend
    call env.pause
    set_playing_state paused
    clear_errors
    clear_actual_stream_info
    process_native_events_inner none false
    persist_state
    entry ← current_entry
    position_ms ← gets (λ c. c.status.current_position_ms)
    report_entry context entry position_ms ServerPlaybackState.paused
    report_status
    state

  unfoldable pub rest_at_head : Exec W (Unit {0})
  rest_at_head = modify λ c. record c {
    status = record c.status {
      playing_state = stopped;
      current_position_ms = 0;
      playback_error = none;
      interrupt_reason = none;
      pending_seek_position_ms = none;
      actual_stream_info = none;
    };
    interrupted_resume_state = none;
  }

  unfoldable pub stop_with_context : Option Context → Exec W PlaybackStatus
  stop_with_context context = do
    sync_current_position_from_backend
    stop_position_ms ← gets (λ c. c.status.current_position_ms)
    stop_entry ← current_entry
    clear_gapless_preparation
    call env.stop
    clear_native_events
    report_entry context stop_entry stop_position_ms ServerPlaybackState.stopped
    clear_server_reporting
    rest_at_head
    reset_output_stream_recovery_attempts
    finish

  unfoldable pub seek_in_backend : Context → ℕ → ℕ → Bool → Exec W (Unit {0})
  seek_in_backend context index requested_position_ms autoplay = do
    sync_current_position_from_backend
    action ← call (env.seek requested_position_ms)
    elim action [
      | applied ↦ modify (
          with_status λ st. record st {
            playback_error = none;
            interrupt_reason = none;
            pending_seek_position_ms = some requested_position_ms;
          })
      | reload_required ↦ reload_track_at_index_exact context index requested_position_ms autoplay
    ]

  -- The report of a seek: at the position that is still pending, if one is.
  unfoldable pub report_seek : Context → Exec W (Unit {0})
  report_seek context = do
    entry ← current_entry
    status ← gets (λ c. c.status)
    let position_ms = Option.get_or status.pending_seek_position_ms status.current_position_ms
    if state_eq status.playing_state playing
        then report_entry (some context) entry position_ms ServerPlaybackState.playing
        else when (state_eq status.playing_state paused)
            (report_entry (some context) entry position_ms ServerPlaybackState.paused)

  unfoldable pub seek : Context → ℕ → Exec W PlaybackStatus
  seek context requested_position_ms = do
    index ← ensure_current_index
    autoplay ← gets should_autoplay
    playing_state ← gets (λ c. c.status.playing_state)
    if is_playing_or_paused playing_state
        then seek_in_backend context index requested_position_ms autoplay
        else (do
          modify (with_status λ st. record st { current_position_ms = requested_position_ms })
          clear_errors)
    process_native_events_inner (some context) false
    report_seek context
    report_status
    state

  -- The change of track that `next` and `prev` share.
  unfoldable pub change_track : Context → ℕ → ℕ → Exec W PlaybackStatus
  change_track context current_index new_index = do
    autoplay ← gets should_autoplay
    modify (with_status (adjust_play_next (some current_index) new_index))
    playing_state ← gets (λ c. c.status.playing_state)
    if is_playing_or_paused playing_state
        then (do
          sync_current_position_from_backend
          position_ms ← gets (λ c. c.status.current_position_ms)
          report_current_server_playback_stopped context position_ms
          load_track_at_index context new_index 0 autoplay)
        else modify λ c. record c {
          status = stopped_at new_index c.status;
          interrupted_resume_state = none;
        }
    persist_state
    process_native_events_inner (some context) false
    report_status
    state

  unfoldable pub next : Context → Exec W PlaybackStatus
  next context = do
    current_index ← ensure_current_index
    queue_len ← gets (λ c. length c.status.queue)
    if_some (checked_add_u32 current_index 1)
        (λ next_index.
          if leb queue_len next_index
          then raise "Already at the end of the playback queue."
          else change_track context current_index next_index)
        (raise "The current queue position is out of range.")

  unfoldable pub prev : Context → Exec W PlaybackStatus
  prev context = do
    current_index ← ensure_current_index
    sync_current_position_from_backend
    position_ms ← gets (λ c. c.status.current_position_ms)
    if current_index == 0 || ltb prev_restart_threshold_ms position_ms
        then (do result ← seek context 0; persist_state; pure result)
        else change_track context current_index (current_index - 1)

  unfoldable pub on_track_finished : Exec W PlaybackStatus
  on_track_finished = do
    clear_gapless_preparation
    clear_server_reporting
    clear_native_events
    rest_at_head
    report_status
    state

  unfoldable pub reset : Exec W PlaybackStatus
  reset = do
    clear_gapless_preparation
    clear_server_reporting
    ignore (call env.stop)
    clear_native_events
    modify (with_status λ st. record empty_status { queue_revision = st.queue_revision })
    record_queue_change []
    modify λ c. record c {
      interrupted_resume_state = none;
      active_profile_id = none;
      restore_state_deferred = false;
    }
    sync_queue_state
    finish

  unfoldable pub sync_and_persist : Exec W (Unit {0})
  sync_and_persist = do
    persisted ← gets (λ c. is_some c.active_profile_id && not c.restore_state_deferred)
    playing_state ← gets (λ c. c.status.playing_state)
    when persisted do
      when (state_eq playing_state playing) (ignore sync_current_position_from_backend)
      persist_state
    when (is_loaded playing_state) do ignore (call env.stop); clear_native_events

  unfoldable pub synced_state_with_context : Option Context → Exec W PlaybackStatus
  synced_state_with_context context = do
    process_native_events_inner context false
    sync_current_position_from_backend
    sync_actual_stream_info_from_backend
    ignore (sync_gapless_for_current_track context)
    state

  unfoldable pub process_native_events : Option Context → Exec W (Unit {0})
  process_native_events context = do _ ← process_native_events_inner context true; pure tt
