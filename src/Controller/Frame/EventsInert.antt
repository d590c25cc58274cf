-- ===== src/Controller/Frame/EventsInert.antt =====
-- The event handlers that write none of the queue's fields.
use transonic.Prelude.{ℕ, String, Bool, Option}
use transonic.Models.{PlayingState}
use transonic.Controller.State.{Env, Context, OutputStreamRecoveryPlan}
use transonic.Controller.Exec.{Exec}
use transonic.Controller.Exec.Keeps.{Keeps, Keeps-modify, keeps_rules}
use transonic.Controller.Events.{
  schedule_output_stream_recovery, give_up, stop_and_schedule, recover_output_stream,
  handle_output_stream_error, fail_recovery, end_of_queue, enter_buffering, leave_buffering,
  enter_state,
}
use transonic.Controller.Frame.{QueuePredicate, OnQueue}
use transonic.Controller.Frame.Inert.{
  report_entry-Keeps, current_entry-Keeps, clear_server_reporting-Keeps,
  clear_gapless_preparation-Keeps, sync_actual_stream_info_from_backend-Keeps,
  sync_current_position_from_backend-Keeps, stop_backend_after_output_stream_error-Keeps,
  report_current_server_playback_stopped-Keeps, transition_to_playback_error-Keeps,
  transition_to_stopped_end_of_queue-Keeps,
}

module _ (Q : QueuePredicate) {W : Type 0} ⦃env : Env W⦄ where
  abbrev Inert : {A : Type 0} → Exec W A → Type 0
  Inert m = Keeps (OnQueue Q) m

  pub schedule-Keeps :
      (message : String) (index position_ms : ℕ) (autoplay : Bool) (attempt' : ℕ)
      → Inert (schedule_output_stream_recovery message index position_ms autoplay attempt')
  unfolding schedule_output_stream_recovery
  schedule-Keeps message index position_ms autoplay attempt' =
      search (keeps_rules, Keeps-modify) depth 40

  pub give_up-Keeps :
      (context : Option Context) (message reason : String) → Inert (give_up context message reason)
  unfolding give_up
  give_up-Keeps context message reason =
      search
        (
          keeps_rules, stop_backend_after_output_stream_error-Keeps,
          report_current_server_playback_stopped-Keeps, transition_to_playback_error-Keeps,
        )
        depth 40

  pub stop_and_schedule-Keeps :
      (message : String) (context : Context) (index : ℕ)
      → Inert (stop_and_schedule message context index)
  unfolding stop_and_schedule
  stop_and_schedule-Keeps message context index =
      search
        (
          keeps_rules, sync_current_position_from_backend-Keeps, schedule-Keeps,
          stop_backend_after_output_stream_error-Keeps,
          report_current_server_playback_stopped-Keeps, transition_to_playback_error-Keeps,
        )
        depth 40

  pub recover_output_stream-Keeps :
      (message : String) (context : Option Context) → Inert (recover_output_stream message context)
  unfolding recover_output_stream
  recover_output_stream-Keeps message context =
      search (keeps_rules, give_up-Keeps, stop_and_schedule-Keeps) depth 40

  pub handle_output_stream_error-Keeps :
      (message : String) (context : Option Context)
      → Inert (handle_output_stream_error message context)
  unfolding handle_output_stream_error
  handle_output_stream_error-Keeps message context =
      search (keeps_rules, recover_output_stream-Keeps, transition_to_playback_error-Keeps) depth 40

  pub fail_recovery-Keeps :
      (plan : OutputStreamRecoveryPlan) (context : Context) (e : String)
      → Inert (fail_recovery plan context e)
  unfolding fail_recovery
  fail_recovery-Keeps plan context e =
      search
        (
          keeps_rules, Keeps-modify, report_current_server_playback_stopped-Keeps,
          clear_gapless_preparation-Keeps, clear_server_reporting-Keeps,
        )
        depth 40

  pub end_of_queue-Keeps : (context : Option Context) → Inert (end_of_queue context)
  unfolding end_of_queue
  end_of_queue-Keeps context =
      search
        (
          keeps_rules, current_entry-Keeps, report_entry-Keeps,
          transition_to_stopped_end_of_queue-Keeps,
        )
        depth 40

  pub enter_buffering-Keeps : (position_ms : ℕ) → Inert (enter_buffering position_ms)
  unfolding enter_buffering
  enter_buffering-Keeps position_ms = search (keeps_rules, Keeps-modify) depth 40

  pub leave_buffering-Keeps : (position_ms : ℕ) → Inert (leave_buffering position_ms)
  unfolding leave_buffering
  leave_buffering-Keeps position_ms =
      search (keeps_rules, Keeps-modify, sync_actual_stream_info_from_backend-Keeps) depth 40

  pub enter_state-Keeps :
      (playing_state : PlayingState) (position_ms : ℕ)
      → Inert (enter_state playing_state position_ms)
  unfolding enter_state
  enter_state-Keeps playing_state position_ms =
      search (keeps_rules, Keeps-modify, sync_actual_stream_info_from_backend-Keeps) depth 40
