-- ===== src/Controller/Load.antt =====
-- Loading a track of the queue: `load_track_at_index` and `reload_track_at_index_exact` of
-- src-tauri/src/playback/controller.rs.
use transonic.Prelude.{ℕ, String, Bool, true, false, none, some, if◌then◌else◌}
use transonic.Models.{
  SongResponse, PlayingState, playing, paused, interrupted, error, initial_load, full_reload,
}
use transonic.Controller.State.{Env, Context, ServerPlaybackState}
use transonic.Controller.Exec.{
  Exec, pure, raise, gets, attempt, modify, ◌>>=◌, ◌>>◌, if_some, on_result, ignore,
}
use transonic.Controller.Helpers.{playback_error_from_load_failure, current_queue_entry}
use transonic.Controller.Status.{
  with_status, clear_gapless_preparation, clear_native_events, clear_server_reporting,
  report_status, report_server_playback_state, replace_actual_stream_info_from_backend,
  reset_output_stream_recovery_attempts,
}
use transonic.Controller.Stream.{load_stream_for_song}
use transonic.Controller.Gapless.{
  try_activate_prepared_gapless_track, sync_gapless_for_current_track,
}

abbrev pub loaded_state : Bool → PlayingState
loaded_state true = playing
loaded_state false = paused

abbrev pub loaded_server_state : Bool → ServerPlaybackState
loaded_server_state true = ServerPlaybackState.playing
loaded_server_state false = ServerPlaybackState.paused

module _ {W : Type 0} ⦃env : Env W⦄ where
  unfoldable pub entry_at : ℕ → Exec W SongResponse
  entry_at index = do
    found ← gets (λ c. current_queue_entry c.status.queue (some index))
    if_some found pure (raise "Current playback entry does not exist.")

  -- `load_result` of `load_track_at_index`: a prepared track is activated, any other is loaded.
  unfoldable pub activate_or_load : Context → ℕ → SongResponse → ℕ → Bool → Exec W (Unit {0})
  activate_or_load context index entry requested_position_ms autoplay = do
    activation ←
        attempt (try_activate_prepared_gapless_track index entry requested_position_ms autoplay)
    on_result activation
        (λ activated.
          if activated
          then pure tt
          else load_stream_for_song context entry requested_position_ms autoplay)
        (λ _. do
          clear_gapless_preparation
          load_stream_for_song context entry requested_position_ms autoplay)

  unfoldable pub begin_load : ℕ → SongResponse → ℕ → Exec W (Unit {0})
  begin_load index entry requested_position_ms = do
    clear_native_events
    modify λ c. record c {
      status = record c.status {
        playing_state = interrupted;
        interrupt_reason = some initial_load;
        pending_seek_position_ms = none;
        current_index = some index;
        current_song_id = some entry.id;
        current_position_ms = requested_position_ms;
        playback_error = none;
      };
      interrupted_resume_state = none;
    }
    report_status

  unfoldable pub fail_load : String → Exec W (Unit {0})
  fail_load load_error = do
    let playback_error' = playback_error_from_load_failure load_error
    modify (
        with_status λ st. record st {
          playing_state = error;
          playback_error = some playback_error';
          interrupt_reason = none;
          pending_seek_position_ms = none;
          actual_stream_info = none;
        })
    clear_server_reporting
    report_status
    raise playback_error'.message

  unfoldable pub finish_load : Context → SongResponse → ℕ → Bool → Exec W (Unit {0})
  finish_load context entry requested_position_ms autoplay = do
    clear_native_events
    modify (
        with_status λ st. record st {
          playing_state = loaded_state autoplay;
          current_position_ms = requested_position_ms;
          current_song_id = some entry.id;
          playback_error = none;
          interrupt_reason = none;
          pending_seek_position_ms = none;
        })
    replace_actual_stream_info_from_backend
    modify λ c. record c { interrupted_resume_state = none }
    reset_output_stream_recovery_attempts
    ignore (sync_gapless_for_current_track (some context))
    report_server_playback_state context entry requested_position_ms (loaded_server_state autoplay)

  unfoldable pub load_track_at_index : Context → ℕ → ℕ → Bool → Exec W (Unit {0})
  load_track_at_index context index requested_position_ms autoplay = do
    entry ← entry_at index
    begin_load index entry requested_position_ms
    report_server_playback_state context entry requested_position_ms ServerPlaybackState.starting
    load_result ← attempt (activate_or_load context index entry requested_position_ms autoplay)
    on_result load_result (λ _. finish_load context entry requested_position_ms autoplay) fail_load

  unfoldable pub begin_reload : ℕ → SongResponse → ℕ → Exec W (Unit {0})
  begin_reload index entry requested_position_ms = do
    clear_native_events
    modify λ c. record c {
      status = record c.status {
        playing_state = interrupted;
        interrupt_reason = some full_reload;
        pending_seek_position_ms = some requested_position_ms;
        current_index = some index;
        current_song_id = some entry.id;
        playback_error = none;
      };
      interrupted_resume_state = none;
    }
    report_status

  unfoldable pub finish_reload : Context → ℕ → SongResponse → ℕ → Bool → Exec W (Unit {0})
  finish_reload context index entry requested_position_ms autoplay = do
    clear_native_events
    modify λ c. record c {
      status = record c.status {
        playing_state = loaded_state autoplay;
        current_index = some index;
        current_song_id = some entry.id;
        current_position_ms = requested_position_ms;
        playback_error = none;
        interrupt_reason = none;
        pending_seek_position_ms = none;
      };
      interrupted_resume_state = none;
    }
    reset_output_stream_recovery_attempts
    ignore (sync_gapless_for_current_track (some context))
    report_server_playback_state context entry requested_position_ms (loaded_server_state autoplay)

  -- A failed reload puts the previous status back.
  unfoldable pub reload_track_at_index_exact : Context → ℕ → ℕ → Bool → Exec W (Unit {0})
  reload_track_at_index_exact context index requested_position_ms autoplay = do
    entry ← entry_at index
    previous ← gets (λ c. c)
    begin_reload index entry requested_position_ms
    report_server_playback_state context entry requested_position_ms ServerPlaybackState.starting
    load_result ← attempt (load_stream_for_song context entry requested_position_ms autoplay)
    on_result load_result (λ _. finish_reload context index entry requested_position_ms autoplay)
        (λ e. do
          modify λ c. record c {
            status = previous.status;
            interrupted_resume_state = previous.interrupted_resume_state;
          }
          clear_server_reporting
          report_status
          raise e)
