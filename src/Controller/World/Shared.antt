-- ===== src/Controller/World/Shared.antt =====
-- The outside world under playing and the shared state (src-tauri/src/playback/controller.rs).
use transonic.Prelude.{Option, String, Bool}
use transonic.Controller.Settings.{leave_profile, set_active_profile_id}
use transonic.Controller.World.Status.{
  clear_gapless_preparation-Leaves, clear_server_reporting-Leaves, report_status-Leaves,
  state-Leaves, persist_state-Leaves, sync_queue_state-Leaves,
  reset_output_stream_recovery_attempts-Leaves, current_entry-Leaves, report_entry-Leaves,
  sync_actual_stream_info_from_backend-Leaves, ensure_current_index-Leaves,
  sync_current_position_from_backend-Leaves, clear_actual_stream_info-Leaves,
  clear_native_events-Leaves,
}
use transonic.Controller.QueueOps.{finish, finish_queue_change, clear_errors, set_playing_state}
use transonic.Models.{
  PlayingState, ConnectPlaybackState, playing, paused, stopped, idle, interrupted, error,
}
use transonic.Controller.State.{Context, Env}
use transonic.Controller.Shared.{
  preserve_active_track, take_over, adopt_empty_queue, adopt_shared_state,
  apply_connect_shared_state,
}
use transonic.Controller.World.Streams.{sync_gapless_for_current_track-Leaves}
use transonic.Controller.Transport.{resume_paused, play, pause_with_context}
use transonic.Controller.World.Events.{process_native_events_inner-Leaves}
use transonic.Controller.World.Loads.{load_track_at_index-Leaves}
use transonic.Controller.Exec.World.{Leaves, EnvLeaves, leaves_rules}

module _ {W : Type 0} ⦃env : Env W⦄ {Q : W → Type 0} where
  pub leave_profile-Leaves : EnvLeaves env Q → (a0 : Option String) → Leaves Q (leave_profile a0)
  unfolding leave_profile
  leave_profile-Leaves k a0 =
      search (leaves_rules, clear_gapless_preparation-Leaves, clear_server_reporting-Leaves) depth
        60

  pub set_active_profile_id-Leaves :
      EnvLeaves env Q → (a0 : Option String) → Leaves Q (set_active_profile_id a0)
  unfolding set_active_profile_id
  set_active_profile_id-Leaves k a0 = search (leaves_rules, leave_profile-Leaves) depth 60

  pub finish-Leaves : EnvLeaves env Q → Leaves Q (finish)
  unfolding finish
  finish-Leaves k =
      search (leaves_rules, report_status-Leaves, state-Leaves, persist_state-Leaves) depth 60

  pub finish_queue_change-Leaves : EnvLeaves env Q → Leaves Q (finish_queue_change)
  unfolding finish_queue_change
  finish_queue_change-Leaves k =
      search (leaves_rules, sync_queue_state-Leaves, finish-Leaves) depth 60

  pub clear_errors-Leaves : EnvLeaves env Q → Leaves Q (clear_errors)
  unfolding clear_errors
  clear_errors-Leaves k = search (leaves_rules) depth 60

  pub set_playing_state-Leaves :
      EnvLeaves env Q → (a0 : PlayingState) → Leaves Q (set_playing_state a0)
  unfolding set_playing_state
  set_playing_state-Leaves k a0 = search (leaves_rules) depth 60

  pub preserve_active_track-Leaves :
      EnvLeaves env Q
      → (a0 : Option Context) (a1 : ConnectPlaybackState) → Leaves Q (preserve_active_track a0 a1)
  unfolding preserve_active_track
  preserve_active_track-Leaves k a0 a1 =
      search
        (
          leaves_rules, clear_gapless_preparation-Leaves, sync_gapless_for_current_track-Leaves,
          finish_queue_change-Leaves, clear_errors-Leaves, set_playing_state-Leaves,
        )
        depth 60

  pub resume_paused-Leaves : EnvLeaves env Q → (a0 : Context) → Leaves Q (resume_paused a0)
  unfolding resume_paused
  resume_paused-Leaves k a0 =
      search
        (
          leaves_rules, report_status-Leaves, state-Leaves,
          reset_output_stream_recovery_attempts-Leaves, current_entry-Leaves, report_entry-Leaves,
          sync_actual_stream_info_from_backend-Leaves, process_native_events_inner-Leaves,
        )
        depth 60

  pub play-Leaves : EnvLeaves env Q → (a0 : Context) → Leaves Q (play a0)
  unfolding play
  play-Leaves k a0 =
      search
        (
          leaves_rules, report_status-Leaves, state-Leaves, ensure_current_index-Leaves,
          load_track_at_index-Leaves, process_native_events_inner-Leaves, resume_paused-Leaves,
        )
        depth 60

  pub pause_with_context-Leaves :
      EnvLeaves env Q → (a0 : Option Context) → Leaves Q (pause_with_context a0)
  unfolding pause_with_context
  pause_with_context-Leaves k a0 =
      search
        (
          leaves_rules, report_status-Leaves, state-Leaves, persist_state-Leaves,
          current_entry-Leaves, report_entry-Leaves, sync_current_position_from_backend-Leaves,
          clear_actual_stream_info-Leaves, process_native_events_inner-Leaves, clear_errors-Leaves,
          set_playing_state-Leaves,
        )
        depth 60

  pub take_over-Leaves :
      EnvLeaves env Q → (a0 : Option Context) (a1 : PlayingState) → Leaves Q (take_over a0 a1)
  unfolding take_over
  take_over-Leaves k context playing = search (leaves_rules, play-Leaves) depth 60
  take_over-Leaves k context paused =
      search (leaves_rules, play-Leaves, pause_with_context-Leaves) depth 60
  take_over-Leaves k context stopped =
      search (leaves_rules, report_status-Leaves, state-Leaves, set_playing_state-Leaves) depth 60
  take_over-Leaves k context idle =
      search (leaves_rules, report_status-Leaves, state-Leaves, set_playing_state-Leaves) depth 60
  take_over-Leaves k context interrupted =
      search (leaves_rules, report_status-Leaves, state-Leaves, set_playing_state-Leaves) depth 60
  take_over-Leaves k context error =
      search (leaves_rules, report_status-Leaves, state-Leaves, set_playing_state-Leaves) depth 60

  pub adopt_empty_queue-Leaves : EnvLeaves env Q → Leaves Q (adopt_empty_queue)
  unfolding adopt_empty_queue
  adopt_empty_queue-Leaves k = search (leaves_rules, finish_queue_change-Leaves) depth 60

  pub adopt_shared_state-Leaves :
      EnvLeaves env Q
      → (a0 : Option Context) (a1 : ConnectPlaybackState) (a2 : Bool)
      → Leaves Q (adopt_shared_state a0 a1 a2)
  unfolding adopt_shared_state
  adopt_shared_state-Leaves k a0 a1 a2 =
      search
        (
          leaves_rules, clear_gapless_preparation-Leaves, clear_native_events-Leaves,
          clear_server_reporting-Leaves, sync_queue_state-Leaves, persist_state-Leaves,
          sync_actual_stream_info_from_backend-Leaves, finish_queue_change-Leaves,
          clear_errors-Leaves, set_playing_state-Leaves, take_over-Leaves, adopt_empty_queue-Leaves,
        )
        depth 60

  pub apply_connect_shared_state-Leaves :
      EnvLeaves env Q
      → (a0 : Option Context) (a1 : ConnectPlaybackState) (a2 : Bool) (a3 : Bool)
      → Leaves Q (apply_connect_shared_state a0 a1 a2 a3)
  unfolding apply_connect_shared_state
  apply_connect_shared_state-Leaves k a0 a1 a2 a3 =
      search
        (
          leaves_rules, sync_current_position_from_backend-Leaves, set_active_profile_id-Leaves,
          preserve_active_track-Leaves, adopt_shared_state-Leaves,
        )
        depth 60
