-- ===== src/Controller/World/Status.antt =====
-- The outside world under reports and positions (src-tauri/src/playback/controller.rs).
use transonic.Controller.Status.{
  sync_current_position_from_backend, update_gapless_status, clear_gapless_preparation,
  clear_server_reporting, sync_queue_state, refresh_derived_status, report_status, state,
  persist_state, clear_native_events, clear_actual_stream_info,
  sync_actual_stream_info_from_backend, ensure_current_index, report_server_playback_state,
  reset_output_stream_recovery_attempts, replace_actual_stream_info_from_backend,
  transition_to_playback_error, current_entry, report_entry, report_current_server_playback_stopped,
  confirm_pending_seek, stop_backend_after_output_stream_error, transition_to_stopped_end_of_queue,
}
use transonic.Controller.State.{Context, ServerPlaybackState, Env}
use transonic.Models.{SongResponse}
use transonic.Prelude.{ℕ, String, Bool, Option}
use transonic.Controller.Exec.World.{Leaves, EnvLeaves, leaves_rules}

module _ {W : Type 0} ⦃env : Env W⦄ {Q : W → Type 0} where
  pub sync_current_position_from_backend-Leaves :
      EnvLeaves env Q → Leaves Q (sync_current_position_from_backend)
  unfolding sync_current_position_from_backend
  sync_current_position_from_backend-Leaves k = search (leaves_rules) depth 60

  pub update_gapless_status-Leaves : EnvLeaves env Q → Leaves Q (update_gapless_status)
  unfolding update_gapless_status
  update_gapless_status-Leaves k = search (leaves_rules) depth 60

  pub clear_gapless_preparation-Leaves : EnvLeaves env Q → Leaves Q (clear_gapless_preparation)
  unfolding clear_gapless_preparation
  clear_gapless_preparation-Leaves k = search (leaves_rules, update_gapless_status-Leaves) depth 60

  pub clear_server_reporting-Leaves : EnvLeaves env Q → Leaves Q (clear_server_reporting)
  unfolding clear_server_reporting
  clear_server_reporting-Leaves k = search (leaves_rules) depth 60

  pub sync_queue_state-Leaves : EnvLeaves env Q → Leaves Q (sync_queue_state)
  unfolding sync_queue_state
  sync_queue_state-Leaves k = search (leaves_rules) depth 60

  pub refresh_derived_status-Leaves : EnvLeaves env Q → Leaves Q (refresh_derived_status)
  unfolding refresh_derived_status
  refresh_derived_status-Leaves k = search (leaves_rules, update_gapless_status-Leaves) depth 60

  pub report_status-Leaves : EnvLeaves env Q → Leaves Q (report_status)
  unfolding report_status
  report_status-Leaves k = search (leaves_rules, refresh_derived_status-Leaves) depth 60

  pub state-Leaves : EnvLeaves env Q → Leaves Q (state)
  unfolding state
  state-Leaves k = search (leaves_rules, refresh_derived_status-Leaves) depth 60

  pub persist_state-Leaves : EnvLeaves env Q → Leaves Q (persist_state)
  unfolding persist_state
  persist_state-Leaves k = search (leaves_rules) depth 60

  pub clear_native_events-Leaves : EnvLeaves env Q → Leaves Q (clear_native_events)
  unfolding clear_native_events
  clear_native_events-Leaves k = search (leaves_rules) depth 60

  pub clear_actual_stream_info-Leaves : EnvLeaves env Q → Leaves Q (clear_actual_stream_info)
  unfolding clear_actual_stream_info
  clear_actual_stream_info-Leaves k = search (leaves_rules) depth 60

  pub sync_actual_stream_info_from_backend-Leaves :
      EnvLeaves env Q → Leaves Q (sync_actual_stream_info_from_backend)
  unfolding sync_actual_stream_info_from_backend
  sync_actual_stream_info_from_backend-Leaves k =
      search (leaves_rules, clear_actual_stream_info-Leaves) depth 60

  pub ensure_current_index-Leaves : EnvLeaves env Q → Leaves Q (ensure_current_index)
  unfolding ensure_current_index
  ensure_current_index-Leaves k = search (leaves_rules) depth 60

  pub report_server_playback_state-Leaves :
      EnvLeaves env Q
      → (a0 : Context) (a1 : SongResponse) (a2 : ℕ) (a3 : ServerPlaybackState)
      → Leaves Q (report_server_playback_state a0 a1 a2 a3)
  unfolding report_server_playback_state
  report_server_playback_state-Leaves k a0 a1 a2 a3 = search (leaves_rules) depth 60

  pub reset_output_stream_recovery_attempts-Leaves :
      EnvLeaves env Q → Leaves Q (reset_output_stream_recovery_attempts)
  unfolding reset_output_stream_recovery_attempts
  reset_output_stream_recovery_attempts-Leaves k = search (leaves_rules) depth 60

  pub replace_actual_stream_info_from_backend-Leaves :
      EnvLeaves env Q → Leaves Q (replace_actual_stream_info_from_backend)
  unfolding replace_actual_stream_info_from_backend
  replace_actual_stream_info_from_backend-Leaves k = search (leaves_rules) depth 60

  pub transition_to_playback_error-Leaves :
      EnvLeaves env Q → (a0 : String) (a1 : Bool) → Leaves Q (transition_to_playback_error a0 a1)
  unfolding transition_to_playback_error
  transition_to_playback_error-Leaves k a0 a1 = search (leaves_rules) depth 60

  pub current_entry-Leaves : EnvLeaves env Q → Leaves Q (current_entry)
  unfolding current_entry
  current_entry-Leaves k = search (leaves_rules) depth 60

  pub report_entry-Leaves :
      EnvLeaves env Q
      → (a0 : Option Context) (a1 : Option SongResponse) (a2 : ℕ) (a3 : ServerPlaybackState)
      → Leaves Q (report_entry a0 a1 a2 a3)
  unfolding report_entry
  report_entry-Leaves k a0 a1 a2 a3 =
      search (leaves_rules, report_server_playback_state-Leaves) depth 60

  pub report_current_server_playback_stopped-Leaves :
      EnvLeaves env Q
      → (a0 : Context) (a1 : ℕ) → Leaves Q (report_current_server_playback_stopped a0 a1)
  unfolding report_current_server_playback_stopped
  report_current_server_playback_stopped-Leaves k a0 a1 =
      search (leaves_rules, current_entry-Leaves, report_entry-Leaves) depth 60

  pub confirm_pending_seek-Leaves : EnvLeaves env Q → Leaves Q (confirm_pending_seek)
  unfolding confirm_pending_seek
  confirm_pending_seek-Leaves k = search (leaves_rules) depth 60

  pub stop_backend_after_output_stream_error-Leaves :
      EnvLeaves env Q → Leaves Q (stop_backend_after_output_stream_error)
  unfolding stop_backend_after_output_stream_error
  stop_backend_after_output_stream_error-Leaves k =
      search
        (
          leaves_rules, clear_gapless_preparation-Leaves, clear_native_events-Leaves,
          clear_server_reporting-Leaves, clear_actual_stream_info-Leaves,
        )
        depth 60

  pub transition_to_stopped_end_of_queue-Leaves :
      EnvLeaves env Q → Leaves Q (transition_to_stopped_end_of_queue)
  unfolding transition_to_stopped_end_of_queue
  transition_to_stopped_end_of_queue-Leaves k =
      search (leaves_rules, clear_gapless_preparation-Leaves, clear_server_reporting-Leaves) depth
        60
