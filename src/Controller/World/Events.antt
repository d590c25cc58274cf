-- ===== src/Controller/World/Events.antt =====
-- The outside world under native events and recovery (src-tauri/src/playback/controller.rs).
use transonic.Prelude.{String, ℕ, Bool, Option, List, [], ◌∷◌}
use transonic.Controller.Events.{
  schedule_output_stream_recovery, fail_recovery, run_output_stream_recovery_attempt,
  process_due_output_stream_recovery, give_up, stop_and_schedule, recover_output_stream,
  handle_output_stream_error, end_of_queue, advance_to, handle_track_ended, enter_buffering,
  leave_buffering, enter_state, apply_native_event, apply_events, process_native_events_inner,
}
use transonic.Controller.State.{
  OutputStreamRecoveryPlan, Context, PlaybackNativeEvent, Env, buffering, ready_at, playing_at,
  paused_at, seek_processed, error_event, gapless_prepared, gapless_failed, gapless_transition,
  ended,
}
use transonic.Controller.World.Status.{
  clear_gapless_preparation-Leaves, clear_server_reporting-Leaves,
  report_current_server_playback_stopped-Leaves, transition_to_playback_error-Leaves,
  stop_backend_after_output_stream_error-Leaves, sync_current_position_from_backend-Leaves,
  current_entry-Leaves, report_entry-Leaves, transition_to_stopped_end_of_queue-Leaves,
  report_status-Leaves, sync_actual_stream_info_from_backend-Leaves, confirm_pending_seek-Leaves,
}
use transonic.Controller.World.Loads.{
  reload_track_at_index_exact-Leaves, load_track_at_index-Leaves,
}
use transonic.Models.{PlayingState}
use transonic.Controller.World.Streams.{
  handle_gapless_prepared-Leaves, handle_gapless_failed-Leaves, handle_gapless_transition-Leaves,
}
use transonic.Controller.Exec.World.{Leaves, EnvLeaves, leaves_rules}

module _ {W : Type 0} ⦃env : Env W⦄ {Q : W → Type 0} where
  pub schedule_output_stream_recovery-Leaves :
      EnvLeaves env Q
      → (a0 : String) (a1 : ℕ) (a2 : ℕ) (a3 : Bool) (a4 : ℕ)
      → Leaves Q (schedule_output_stream_recovery a0 a1 a2 a3 a4)
  unfolding schedule_output_stream_recovery
  schedule_output_stream_recovery-Leaves k a0 a1 a2 a3 a4 = search (leaves_rules) depth 60

  pub fail_recovery-Leaves :
      EnvLeaves env Q
      → (a0 : OutputStreamRecoveryPlan) (a1 : Context) (a2 : String)
      → Leaves Q (fail_recovery a0 a1 a2)
  unfolding fail_recovery
  fail_recovery-Leaves k a0 a1 a2 =
      search
        (
          leaves_rules, clear_gapless_preparation-Leaves, clear_server_reporting-Leaves,
          report_current_server_playback_stopped-Leaves,
        )
        depth 60

  pub run_output_stream_recovery_attempt-Leaves :
      EnvLeaves env Q
      → (a0 : OutputStreamRecoveryPlan) (a1 : Context)
      → Leaves Q (run_output_stream_recovery_attempt a0 a1)
  unfolding run_output_stream_recovery_attempt
  run_output_stream_recovery_attempt-Leaves k a0 a1 =
      search
        (
          leaves_rules, reload_track_at_index_exact-Leaves, schedule_output_stream_recovery-Leaves,
          fail_recovery-Leaves,
        )
        depth 60

  pub process_due_output_stream_recovery-Leaves :
      EnvLeaves env Q → (a0 : Option Context) → Leaves Q (process_due_output_stream_recovery a0)
  unfolding process_due_output_stream_recovery
  process_due_output_stream_recovery-Leaves k a0 =
      search
        (
          leaves_rules, transition_to_playback_error-Leaves,
          run_output_stream_recovery_attempt-Leaves,
        )
        depth 60

  pub give_up-Leaves :
      EnvLeaves env Q
      → (a0 : Option Context) (a1 : String) (a2 : String) → Leaves Q (give_up a0 a1 a2)
  unfolding give_up
  give_up-Leaves k a0 a1 a2 =
      search
        (
          leaves_rules, report_current_server_playback_stopped-Leaves,
          transition_to_playback_error-Leaves, stop_backend_after_output_stream_error-Leaves,
        )
        depth 60

  pub stop_and_schedule-Leaves :
      EnvLeaves env Q
      → (a0 : String) (a1 : Context) (a2 : ℕ) → Leaves Q (stop_and_schedule a0 a1 a2)
  unfolding stop_and_schedule
  stop_and_schedule-Leaves k a0 a1 a2 =
      search
        (
          leaves_rules, report_current_server_playback_stopped-Leaves,
          sync_current_position_from_backend-Leaves, transition_to_playback_error-Leaves,
          stop_backend_after_output_stream_error-Leaves, schedule_output_stream_recovery-Leaves,
        )
        depth 60

  pub recover_output_stream-Leaves :
      EnvLeaves env Q → (a0 : String) (a1 : Option Context) → Leaves Q (recover_output_stream a0 a1)
  unfolding recover_output_stream
  recover_output_stream-Leaves k a0 a1 =
      search (leaves_rules, give_up-Leaves, stop_and_schedule-Leaves) depth 60

  pub handle_output_stream_error-Leaves :
      EnvLeaves env Q
      → (a0 : String) (a1 : Option Context) → Leaves Q (handle_output_stream_error a0 a1)
  unfolding handle_output_stream_error
  handle_output_stream_error-Leaves k a0 a1 =
      search (leaves_rules, transition_to_playback_error-Leaves, recover_output_stream-Leaves) depth
        60

  pub end_of_queue-Leaves : EnvLeaves env Q → (a0 : Option Context) → Leaves Q (end_of_queue a0)
  unfolding end_of_queue
  end_of_queue-Leaves k a0 =
      search
        (
          leaves_rules, current_entry-Leaves, report_entry-Leaves,
          transition_to_stopped_end_of_queue-Leaves,
        )
        depth 60

  pub advance_to-Leaves :
      EnvLeaves env Q → (a0 : Context) (a1 : ℕ) (a2 : ℕ) → Leaves Q (advance_to a0 a1 a2)
  unfolding advance_to
  advance_to-Leaves k a0 a1 a2 =
      search
        (
          leaves_rules, report_status-Leaves, current_entry-Leaves, report_entry-Leaves,
          load_track_at_index-Leaves,
        )
        depth 60

  pub handle_track_ended-Leaves :
      EnvLeaves env Q → (a0 : Option Context) → Leaves Q (handle_track_ended a0)
  unfolding handle_track_ended
  handle_track_ended-Leaves k a0 =
      search
        (
          leaves_rules, transition_to_stopped_end_of_queue-Leaves, end_of_queue-Leaves,
          advance_to-Leaves,
        )
        depth 60

  pub enter_buffering-Leaves : EnvLeaves env Q → (a0 : ℕ) → Leaves Q (enter_buffering a0)
  unfolding enter_buffering
  enter_buffering-Leaves k a0 = search (leaves_rules) depth 60

  pub leave_buffering-Leaves : EnvLeaves env Q → (a0 : ℕ) → Leaves Q (leave_buffering a0)
  unfolding leave_buffering
  leave_buffering-Leaves k a0 =
      search (leaves_rules, sync_actual_stream_info_from_backend-Leaves) depth 60

  pub enter_state-Leaves :
      EnvLeaves env Q → (a0 : PlayingState) (a1 : ℕ) → Leaves Q (enter_state a0 a1)
  unfolding enter_state
  enter_state-Leaves k a0 a1 =
      search (leaves_rules, sync_actual_stream_info_from_backend-Leaves) depth 60

  pub apply_native_event-Leaves :
      EnvLeaves env Q
      → (a0 : PlaybackNativeEvent) (a1 : Option Context) → Leaves Q (apply_native_event a0 a1)
  unfolding apply_native_event
  apply_native_event-Leaves k (buffering position_ms) context =
      search (leaves_rules, enter_buffering-Leaves) depth 60
  apply_native_event-Leaves k (ready_at position_ms) context =
      search (leaves_rules, leave_buffering-Leaves) depth 60
  apply_native_event-Leaves k (playing_at position_ms) context =
      search (leaves_rules, enter_state-Leaves) depth 60
  apply_native_event-Leaves k (paused_at position_ms) context =
      search (leaves_rules, enter_state-Leaves) depth 60
  apply_native_event-Leaves k (seek_processed position_ms) context =
      search (leaves_rules, confirm_pending_seek-Leaves) depth 60
  apply_native_event-Leaves k (error_event message handled) context =
      search (leaves_rules, transition_to_playback_error-Leaves, handle_output_stream_error-Leaves)
        depth 60
  apply_native_event-Leaves k (gapless_prepared generation) context =
      search (leaves_rules, handle_gapless_prepared-Leaves) depth 60
  apply_native_event-Leaves k (gapless_failed generation message) context =
      search (leaves_rules, handle_gapless_failed-Leaves) depth 60
  apply_native_event-Leaves k gapless_transition context =
      search (leaves_rules, handle_gapless_transition-Leaves) depth 60
  apply_native_event-Leaves k ended context =
      search (leaves_rules, handle_track_ended-Leaves) depth 60

  pub apply_events-Leaves :
      EnvLeaves env Q
      → (a0 : List PlaybackNativeEvent) (a1 : Option Context) (a2 : Bool)
      → Leaves Q (apply_events a0 a1 a2)
  unfolding apply_events
  apply_events-Leaves k [] context changed = search (leaves_rules) depth 60
  apply_events-Leaves k (event ∷ events) context changed =
      let rest = λ (changed : Bool). apply_events-Leaves k events context changed in
      search (leaves_rules, rest, apply_native_event-Leaves) depth 60

  pub process_native_events_inner-Leaves :
      EnvLeaves env Q
      → (a0 : Option Context) (a1 : Bool) → Leaves Q (process_native_events_inner a0 a1)
  unfolding process_native_events_inner
  process_native_events_inner-Leaves k a0 a1 =
      search
        (
          leaves_rules, report_status-Leaves, process_due_output_stream_recovery-Leaves,
          apply_events-Leaves,
        )
        depth 60
