-- ===== src/Controller/Settings.antt =====
-- Settings, the active profile, the artwork and the output device
-- (src-tauri/src/playback/controller.rs).
use transonic.Prelude.{
  ℕ, String, Bool, true, false, not, ◌&&◌, Option, none, some, is_empty, ◌==◌, str_eq,
  if◌then◌else◌,
}
use transonic.Models.{
  SongResponse, PlaybackStatus, PlaybackStreamMode, PlaybackTranscodingCodec, error, playing,
  is_playing_or_paused, mode_eq, codec_eq, state_eq,
}
use transonic.Controller.State.{Controller, Env, Context}
use transonic.Controller.Exec.{
  Exec, pure, raise, lift, gets, attempt, call, modify, ◌>>=◌, ◌>>◌, if_some, on_result, when,
}
use transonic.Controller.Helpers.{
  current_queue_entry, display_cover_art_id, normalize_output_device_id, option_str_eq,
  format_output_device_change_error, playback_error_from_load_failure,
}
use transonic.Controller.Status.{
  report_status, clear_gapless_preparation, clear_native_events, clear_server_reporting,
  persist_state, clear_actual_stream_info, reset_output_stream_recovery_attempts,
  ensure_current_index, sync_current_position_from_backend,
}
use transonic.Controller.Gapless.{sync_gapless_for_current_track}
use transonic.Controller.Load.{reload_track_at_index_exact}

pub record PlaybackArtworkUpdateTarget : Type 0 where
  pub queue_index : ℕ
  pub song_id : String
  pub cover_art_id : String

abbrev pub bool_eq : Bool → Bool → Bool
bool_eq true b = b
bool_eq false b = not b

abbrev pub artwork_target_eq : PlaybackArtworkUpdateTarget → PlaybackArtworkUpdateTarget → Bool
artwork_target_eq a b =
    a.queue_index == b.queue_index
    && str_eq a.song_id b.song_id
    && str_eq a.cover_art_id b.cover_art_id

abbrev pub artwork_target_of :
    ℕ → SongResponse → String → Option String → Option PlaybackArtworkUpdateTarget
artwork_target_of queue_index entry song_id none = none
artwork_target_of queue_index entry song_id (some cover_art_id) =
    if str_eq entry.id song_id
    then some (record { queue_index = queue_index; song_id = song_id; cover_art_id = cover_art_id })
    else none

unfoldable pub current_artwork_update_target : PlaybackStatus → Option PlaybackArtworkUpdateTarget
current_artwork_update_target status = elim status.current_index [
  | none ↦ none
  | some queue_index ↦ elim (current_queue_entry status.queue (some queue_index)) [
    | none ↦ none
    | some entry ↦ elim status.current_song_id [
      | none ↦ none
      | some song_id ↦ artwork_target_of queue_index entry song_id (display_cover_art_id entry)
    ]
  ]
]

unfoldable pub is_initialized_for_profile : Controller → String → Bool
is_initialized_for_profile c profile_id =
    option_str_eq c.active_profile_id (some profile_id) && not c.restore_state_deferred

unfoldable pub can_preserve_active_connect_snapshot_for_profile : Controller → String → Bool
can_preserve_active_connect_snapshot_for_profile c profile_id =
    is_initialized_for_profile c profile_id && not (is_empty c.status.queue)

module _ {W : Type 0} ⦃env : Env W⦄ where
  -- The preparation and the reports of another profile are dropped.
  unfoldable pub leave_profile : Option String → Exec W (Unit {0})
  leave_profile profile_id = do
    same ← gets (λ c. option_str_eq c.active_profile_id profile_id)
    when (not same) do clear_gapless_preparation; clear_server_reporting

  unfoldable pub set_active_profile_id : Option String → Exec W (Unit {0})
  set_active_profile_id profile_id = do
    leave_profile profile_id
    modify λ c. record c { active_profile_id = profile_id; restore_state_deferred = false }

  unfoldable pub defer_state_restore : String → Exec W (Unit {0})
  defer_state_restore profile_id = do
    leave_profile (some profile_id)
    modify λ c. record c { active_profile_id = some profile_id; restore_state_deferred = true }

  -- The result is that of the preparation, and the status is reported in both cases.
  unfoldable pub refresh_gapless : Option Context → Exec W (Unit {0})
  refresh_gapless context = do
    result ← attempt (sync_gapless_for_current_track context)
    report_status
    lift result

  unfoldable pub set_gapless_playback_enabled : Bool → Option Context → Exec W (Unit {0})
  set_gapless_playback_enabled enabled context = do
    same ← gets (λ c. bool_eq c.gapless_playback_enabled enabled)
    if same
        then pure tt
        else do modify λ c. record c { gapless_playback_enabled = enabled }; refresh_gapless context

  unfoldable pub set_stream_settings :
      PlaybackStreamMode → ℕ → PlaybackTranscodingCodec → Option Context → Exec W (Unit {0})
  set_stream_settings mode max_bit_rate codec context = do
    same ← gets (λ c.
        mode_eq c.stream_mode mode
        && c.transcoding_max_bit_rate == max_bit_rate
        && codec_eq c.transcoding_codec codec)
    if same then pure tt else do
      modify λ c. record c {
        stream_mode = mode;
        transcoding_max_bit_rate = max_bit_rate;
        transcoding_codec = codec;
      }
      clear_gapless_preparation
      refresh_gapless context

  unfoldable pub update_artwork_if_current : PlaybackArtworkUpdateTarget → String → Exec W Bool
  update_artwork_if_current target artwork_path = do
    current ← gets (λ c. current_artwork_update_target c.status)
    if_some current
        (λ current_target.
          if artwork_target_eq current_target target
          then (do call (env.update_artwork target.song_id (some artwork_path)); pure true)
          else pure false)
        (pure false)

  -- The device goes back to the previous one; the error of that is part of the message.
  unfoldable pub roll_back_output_device : Option String → String → Exec W (Unit {0})
  roll_back_output_device previous message = do
    rollback ← attempt (call (env.set_output_device previous))
    modify λ c. record c { output_device_id = previous }
    on_result rollback (λ _. raise (format_output_device_change_error message none))
        (λ e. raise (format_output_device_change_error message (some e)))

  unfoldable pub fail_device_reload : Option String → ℕ → String → Exec W (Unit {0})
  fail_device_reload previous reload_position_ms load_error = do
    rollback ← attempt (call (env.set_output_device previous))
    let playback_error' = playback_error_from_load_failure load_error
    modify λ c. record c {
      output_device_id = previous;
      status = record c.status {
        playing_state = error;
        current_position_ms = reload_position_ms;
        playback_error = some playback_error';
        interrupt_reason = none;
        pending_seek_position_ms = none;
        actual_stream_info = none;
      };
      interrupted_resume_state = none;
    }
    clear_gapless_preparation
    clear_server_reporting
    report_status
    on_result rollback (λ _. raise (format_output_device_change_error playback_error'.message none))
        (λ e. raise (format_output_device_change_error playback_error'.message (some e)))

  -- Stop the track that is loaded and load it again, at its position, on the new device.
  unfoldable pub reload_on_device : Option String → Context → ℕ → ℕ → Bool → Exec W (Unit {0})
  reload_on_device previous context index reload_position_ms autoplay = do
    stop_result ← attempt (call env.stop)
    on_result stop_result
        (λ _. do
          clear_native_events
          clear_server_reporting
          clear_actual_stream_info
          reload_result ←
              attempt (reload_track_at_index_exact context index reload_position_ms autoplay)
          on_result reload_result pure (fail_device_reload previous reload_position_ms))
        (roll_back_output_device previous)

  unfoldable pub select_output_device : Option String → Exec W (Unit {0})
  select_output_device device = do
    call (env.set_output_device device)
    modify λ c. record c { output_device_id = device }
    clear_gapless_preparation

  unfoldable pub finish_output_device : Exec W (Unit {0})
  finish_output_device = do reset_output_stream_recovery_attempts; persist_state; report_status

  unfoldable pub change_output_device : Option String → Option Context → Exec W (Unit {0})
  change_output_device device context = do
    previous ← gets (λ c. c.output_device_id)
    playing_state ← gets (λ c. c.status.playing_state)
    if is_playing_or_paused playing_state
        then if_some context
            (λ ctx. do
              index ← ensure_current_index
              sync_current_position_from_backend
              reload_position_ms ← gets (λ c. c.status.current_position_ms)
              select_output_device device
              reload_on_device previous ctx index reload_position_ms
                  (state_eq playing_state playing)
              finish_output_device)
            (raise "No active session is available to reload playback after output device change.")
        else (do select_output_device device; finish_output_device)

  unfoldable pub set_output_device : Option String → Option Context → Exec W (Unit {0})
  set_output_device output_device_id context = do
    let device = normalize_output_device_id output_device_id
    same ← gets (λ c. option_str_eq c.output_device_id device)
    if same then pure tt else change_output_device device context
