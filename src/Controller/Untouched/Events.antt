-- ===== src/Controller/Untouched/Events.antt =====
-- The queue under native events (src-tauri/src/playback/controller.rs).
use transonic.Prelude.{ℕ, ◌||◌, Bool, Option, List, [], ◌∷◌}
use transonic.Models.{SongResponse}
use transonic.Controller.State.{
  Env, Context, GaplessTrackTarget, OutputStreamRecoveryPlan, PlaybackNativeEvent, buffering,
  ready_at, playing_at, paused_at, seek_processed, error_event, gapless_prepared, gapless_failed,
  gapless_transition, ended,
}
use transonic.Controller.Exec.{Exec}
use transonic.Controller.Exec.Keeps.{Keeps, Keeps-modify, Keeps-bind, Keeps-pure, keeps_rules}
use transonic.Controller.Gapless.{enter_gapless_track, handle_gapless_transition}
use transonic.Controller.Events.{
  advance_to, apply_events, apply_native_event, handle_track_ended,
  process_due_output_stream_recovery, process_native_events_inner,
  run_output_stream_recovery_attempt,
}
use transonic.Controller.Frame.{OnQueue}
use transonic.Controller.Frame.Inert.{
  report_status-Keeps, clear_gapless_preparation-Keeps, confirm_pending_seek-Keeps,
  current_entry-Keeps, report_entry-Keeps, sync_actual_stream_info_from_backend-Keeps,
  transition_to_stopped_end_of_queue-Keeps, transition_to_playback_error-Keeps,
}
use transonic.Controller.Frame.GaplessInert.{
  sync_gapless_for_current_track-Keeps, handle_gapless_prepared-Keeps, handle_gapless_failed-Keeps,
}
use transonic.Controller.Frame.EventsInert.{
  schedule-Keeps, handle_output_stream_error-Keeps, fail_recovery-Keeps, end_of_queue-Keeps,
  enter_buffering-Keeps, leave_buffering-Keeps, enter_state-Keeps,
}
use transonic.Controller.Untouched.{SameQueue}
use transonic.Controller.Untouched.Loads.{
  load_track_at_index-Untouched, reload_track_at_index_exact-Untouched,
}

module _ (queue : List SongResponse) (revision : ℕ) (index_map : List (Option ℕ)) {W : Type 0}
    ⦃env : Env W⦄ where
  abbrev Untouched : {A : Type 0} → Exec W A → Type 0
  Untouched m = Keeps (OnQueue (SameQueue queue revision index_map)) m

  pub enter_gapless_track-Untouched :
      (context : Option Context) (target : GaplessTrackTarget) (entry : SongResponse)
      → Untouched (enter_gapless_track context target entry)
  unfolding enter_gapless_track
  enter_gapless_track-Untouched context target entry =
      search
        (
          keeps_rules, Keeps-modify, current_entry-Keeps, report_entry-Keeps,
          sync_actual_stream_info_from_backend-Keeps, sync_gapless_for_current_track-Keeps,
        )
        depth 60

  pub handle_gapless_transition-Untouched :
      (context : Option Context) → Untouched (handle_gapless_transition context)
  unfolding handle_gapless_transition
  handle_gapless_transition-Untouched context =
      search (keeps_rules, enter_gapless_track-Untouched, clear_gapless_preparation-Keeps) depth 60

  pub advance_to-Untouched :
      (context : Context) (current : ℕ) (next_index : ℕ)
      → Untouched (advance_to context current next_index)
  unfolding advance_to
  advance_to-Untouched context current next_index =
      search
        (
          keeps_rules, Keeps-modify, load_track_at_index-Untouched, current_entry-Keeps,
          report_entry-Keeps, report_status-Keeps,
        )
        depth 60

  pub handle_track_ended-Untouched :
      (context : Option Context) → Untouched (handle_track_ended context)
  unfolding handle_track_ended
  handle_track_ended-Untouched context =
      search
        (
          keeps_rules, advance_to-Untouched, transition_to_stopped_end_of_queue-Keeps,
          end_of_queue-Keeps,
        )
        depth 60

  pub run_output_stream_recovery_attempt-Untouched :
      (plan : OutputStreamRecoveryPlan) (context : Context)
      → Untouched (run_output_stream_recovery_attempt plan context)
  unfolding run_output_stream_recovery_attempt
  run_output_stream_recovery_attempt-Untouched plan context =
      search
        (
          keeps_rules, Keeps-modify, reload_track_at_index_exact-Untouched, schedule-Keeps,
          fail_recovery-Keeps,
        )
        depth 60

  pub process_due_output_stream_recovery-Untouched :
      (context : Option Context) → Untouched (process_due_output_stream_recovery context)
  unfolding process_due_output_stream_recovery
  process_due_output_stream_recovery-Untouched context =
      search
        (
          keeps_rules, Keeps-modify, run_output_stream_recovery_attempt-Untouched,
          transition_to_playback_error-Keeps,
        )
        depth 60

  apply_native_event-Untouched :
      (event : PlaybackNativeEvent) (context : Option Context)
      → Untouched (apply_native_event event context)
  unfolding apply_native_event
  apply_native_event-Untouched (buffering position_ms) context =
      enter_buffering-Keeps (SameQueue queue revision index_map) position_ms
  apply_native_event-Untouched (ready_at position_ms) context =
      leave_buffering-Keeps (SameQueue queue revision index_map) position_ms
  apply_native_event-Untouched (playing_at position_ms) context =
      enter_state-Keeps (SameQueue queue revision index_map) _ position_ms
  apply_native_event-Untouched (paused_at position_ms) context =
      enter_state-Keeps (SameQueue queue revision index_map) _ position_ms
  apply_native_event-Untouched (seek_processed position_ms) context =
      search (keeps_rules, Keeps-modify, confirm_pending_seek-Keeps) depth 40
  apply_native_event-Untouched (error_event message handled) context =
      search (keeps_rules, handle_output_stream_error-Keeps, transition_to_playback_error-Keeps)
        depth 40
  apply_native_event-Untouched (gapless_prepared generation) context =
      handle_gapless_prepared-Keeps (SameQueue queue revision index_map) generation
  apply_native_event-Untouched (gapless_failed generation message) context =
      handle_gapless_failed-Keeps (SameQueue queue revision index_map) generation message
  apply_native_event-Untouched gapless_transition context =
      handle_gapless_transition-Untouched context
  apply_native_event-Untouched ended context = handle_track_ended-Untouched context

  apply_events-Untouched :
      (events : List PlaybackNativeEvent) (context : Option Context) (changed : Bool)
      → Untouched (apply_events events context changed)
  unfolding apply_events
  apply_events-Untouched [] context changed = Keeps-pure changed
  apply_events-Untouched (event ∷ events) context changed =
      Keeps-bind _ _ (apply_native_event-Untouched event context)
        (λ event_changed. apply_events-Untouched events context (changed || event_changed))

  pub process_native_events_inner-Untouched :
      (context : Option Context) (report_changes : Bool)
      → Untouched (process_native_events_inner context report_changes)
  unfolding process_native_events_inner
  process_native_events_inner-Untouched context report_changes =
      search
        (
          keeps_rules, apply_events-Untouched, process_due_output_stream_recovery-Untouched,
          report_status-Keeps,
        )
        depth 60
