-- ===== src/Controller/Shared.antt =====
-- `apply_connect_shared_state` of src-tauri/src/playback/controller.rs: the shared state of Connect
-- replaces the local one.
use transonic.Prelude.{
  String, Bool, false, not, ◌&&◌, Option, none, some, is_empty, str_eq, if◌then◌else◌,
}
use mathlib.Core.Option
use transonic.Models.{
  SongResponse, PlaybackStatus, PlayingState, idle, playing, paused, stopped, interrupted, error,
  ConnectPlaybackState, is_loaded, is_playing_or_paused, state_eq,
}
use transonic.Controller.State.{Env, Context}
use transonic.Controller.Exec.{
  Exec, pure, raise, lift, gets, call, modify, ◌>>=◌, ◌>>◌, if_some, when, ignore,
}
use transonic.Controller.Helpers.{
  validate_queue_index, current_song_id, current_queue_entry, clamp_play_next_queue_len,
  option_str_eq,
}
use transonic.Controller.Status.{
  with_status, report_status, state, clear_gapless_preparation, clear_native_events,
  clear_server_reporting, sync_queue_state, persist_state, sync_current_position_from_backend,
  sync_actual_stream_info_from_backend,
}
use transonic.Controller.Gapless.{sync_gapless_for_current_track}
use transonic.Controller.QueueOps.{clear_errors, set_playing_state, finish_queue_change}
use transonic.Controller.Transport.{play, pause_with_context}
use transonic.Controller.Settings.{set_active_profile_id}

abbrev pub same_track : Option SongResponse → Option SongResponse → Option String → Bool
same_track (some current) (some next) song_id =
    option_str_eq song_id (some next.id)
    && str_eq current.id next.id
    && option_str_eq current.path next.path
same_track _ _ song_id = false

unfoldable pub should_preserve_active_track_for_shared_state :
    PlaybackStatus → ConnectPlaybackState → Bool → Bool
should_preserve_active_track_for_shared_state status shared is_active_device =
    is_active_device
    && state_eq status.playing_state shared.playing_state
    && is_playing_or_paused status.playing_state
    && same_track (current_queue_entry status.queue status.current_index)
        (current_queue_entry shared.queue shared.current_index) shared.current_song_id

-- The shared queue, with its revision and index map, in place of the local one.
unfoldable pub shared_queue : ConnectPlaybackState → PlaybackStatus → PlaybackStatus
shared_queue shared st = clamp_play_next_queue_len (record st {
  queue = shared.queue;
  current_index = shared.current_index;
  play_next_queue_len = shared.play_next_queue_len;
  current_song_id = current_song_id shared.queue shared.current_index;
  queue_revision = shared.queue_revision;
  queue_index_map = shared.queue_index_map;
})

module _ {W : Type 0} ⦃env : Env W⦄ where
  -- The active track goes on playing, in the shared queue.
  unfoldable pub preserve_active_track :
      Option Context → ConnectPlaybackState → Exec W PlaybackStatus
  preserve_active_track context shared = do
    clear_gapless_preparation
    modify (with_status (shared_queue shared))
    set_playing_state shared.playing_state
    clear_errors
    ignore (sync_gapless_for_current_track context)
    finish_queue_change

  -- What the active device does with the shared playing state.
  unfoldable pub take_over : Option Context → PlayingState → Exec W PlaybackStatus
  take_over context playing = if_some context play (raise "No active session is available.")
  take_over context paused =
      if_some context (λ ctx. do play ctx; pause_with_context (some ctx))
        (raise "No active session is available.")
  take_over context stopped = do set_playing_state stopped; report_status; state
  take_over context idle = do set_playing_state idle; report_status; state
  take_over context interrupted = do set_playing_state stopped; report_status; state
  take_over context error = do set_playing_state stopped; report_status; state

  unfoldable pub adopt_empty_queue : Exec W PlaybackStatus
  adopt_empty_queue = do
    modify (
        with_status λ st. record st {
          playing_state = idle;
          current_index = none;
          current_song_id = none;
          current_position_ms = 0;
        })
    finish_queue_change

  unfoldable pub adopt_shared_state :
      Option Context → ConnectPlaybackState → Bool → Exec W PlaybackStatus
  adopt_shared_state context shared is_active_device = do
    call env.stop
    clear_gapless_preparation
    clear_server_reporting
    clear_native_events
    modify (
        with_status λ st. record (shared_queue shared st) {
          current_position_ms = shared.current_position_ms;
        })
    clear_errors
    sync_actual_stream_info_from_backend
    if is_empty shared.queue
        then adopt_empty_queue
        else if not is_active_device
        then (do set_playing_state shared.playing_state; finish_queue_change)
        else do
          set_playing_state stopped
          sync_queue_state
          persist_state
          take_over context shared.playing_state

  unfoldable pub apply_connect_shared_state :
      Option Context → ConnectPlaybackState → Bool → Bool → Exec W PlaybackStatus
  apply_connect_shared_state context shared is_active_device allow_preserve_active_track = do
    lift (validate_queue_index shared.queue shared.current_index)
    if_some (Option.bind context (λ ctx. ctx.profile_id))
        (λ profile_id. set_active_profile_id (some profile_id)) (pure tt)
    playing_state ← gets (λ c. c.status.playing_state)
    when (is_loaded playing_state) (ignore sync_current_position_from_backend)
    status ← gets (λ c. c.status)
    if allow_preserve_active_track
          && should_preserve_active_track_for_shared_state status shared is_active_device
        then preserve_active_track context shared
        else adopt_shared_state context shared is_active_device
