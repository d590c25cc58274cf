-- ===== src/Controller/Invariant/Events.antt =====
-- Coherence of the queue under native events and the recovery of the output stream (src-tauri/src/playback/controller.rs).
use transonic.Prelude.{ℕ, ◌∙◌, ◌||◌, Bool, true, false, Option, none, some, List, [], ◌∷◌, length}
use transonic.Models.{SongResponse}
use transonic.Controller.State.{
  Controller, Env, Context, GaplessTrackTarget, OutputStreamRecoveryPlan, PlaybackNativeEvent,
  buffering, ready_at, playing_at, paused_at, seek_processed, error_event, gapless_prepared,
  gapless_failed, gapless_transition, ended, ServerPlaybackState,
}
use transonic.Controller.Exec.{Exec, pure, gets, modify, ignore, ◌>>=◌, ◌>>◌, if_some}
use transonic.Controller.Exec.Keeps.{Keeps, Keeps-modify, Keeps-bind, Keeps-pure, keeps_rules}
use transonic.Controller.Exec.From.{
  From, From-if_some, From-gets, From-step, From-keeps, From-write, From-read, From-weaken,
  Keeps-from,
}
use transonic.Controller.Helpers.{current_queue_entry}
use transonic.Controller.Status.{
  with_status, clear_gapless_preparation, current_entry, report_entry,
  sync_actual_stream_info_from_backend,
}
use transonic.Controller.Gapless.{
  enter_gapless_track, handle_gapless_transition, sync_gapless_for_current_track,
}
use transonic.Controller.Events.{
  run_output_stream_recovery_attempt, process_due_output_stream_recovery, advance_to,
  handle_track_ended, apply_native_event, apply_events, process_native_events_inner,
}
use transonic.Controller.Frame.{QueuePredicate, OnQueue}
use transonic.Controller.Frame.Inert.{
  report_status-Keeps, report_entry-Keeps, current_entry-Keeps, clear_gapless_preparation-Keeps,
  confirm_pending_seek-Keeps, sync_actual_stream_info_from_backend-Keeps,
  transition_to_playback_error-Keeps, transition_to_stopped_end_of_queue-Keeps,
}
use transonic.Controller.Frame.GaplessInert.{
  sync_gapless_for_current_track-Keeps, handle_gapless_prepared-Keeps, handle_gapless_failed-Keeps,
}
use transonic.Controller.Frame.EventsInert.{
  schedule-Keeps, handle_output_stream_error-Keeps, fail_recovery-Keeps, end_of_queue-Keeps,
  enter_buffering-Keeps, leave_buffering-Keeps, enter_state-Keeps,
}
use transonic.Controller.Invariant.{Coherent, Found, found_index, found_song}
use transonic.Controller.Invariant.Loads.{
  load_track_at_index-Coherent, reload_track_at_index_exact-Coherent,
}
use transonic.Queue.PlayNext.{adjusted_play_next_queue_len_for_current_change}
use transonic.Queue.PlayNext.Region.{adjusted-le}

adjust_write :
    (current next : ℕ) (c : Controller)
    → OnQueue Coherent c
    → OnQueue Coherent (
        with_status
          (λ st. record st {
            play_next_queue_len =
                adjusted_play_next_queue_len_for_current_change
                  (length st.queue)
                  (some current)
                  st.play_next_queue_len
                  (some next);
          })
          c)
adjust_write current next c h = (
  h.0,
  adjusted-le (length c.status.queue) (some current) c.status.play_next_queue_len (some next),
  h.2,
)

module _ {W : Type 0} ⦃env : Env W⦄ where
  abbrev Kept : {A : Type 0} → Exec W A → Type 0
  Kept m = Keeps (OnQueue Coherent) m

  abbrev Ends : {A : Type 0} → QueuePredicate → Exec W A → Type 0
  Ends Q m = From (OnQueue Q) m (OnQueue Coherent)

  kept : {A : Type 0} (m : Exec W A) → Kept m → Ends Coherent m
  kept m k = From-keeps m (λ c h. h) k

  enter_rest :
      (context : Option Context)
      → Kept (do
        sync_actual_stream_info_from_backend
        modify λ c. record c {
          interrupted_resume_state = none;
          gapless_failure = none;
          prepared_next = none;
        }
        ignore (sync_gapless_for_current_track context)
        current ← current_entry
        position_ms ← gets (λ c. c.status.current_position_ms)
        report_entry context current position_ms ServerPlaybackState.playing
        pure true)
  enter_rest context =
      search
        (
          keeps_rules, Keeps-modify, sync_actual_stream_info_from_backend-Keeps,
          sync_gapless_for_current_track-Keeps, current_entry-Keeps, report_entry-Keeps,
        )
        depth 40

  enter_gapless_track-Coherent :
      (context : Option Context) (target : GaplessTrackTarget) (entry : SongResponse)
      → Ends (Found target.queue_index entry) (enter_gapless_track context target entry)
  unfolding enter_gapless_track
  enter_gapless_track-Coherent context target entry =
      From-step _ _ (current_entry-Keeps (Found target.queue_index entry))
        (λ ended_entry. From-read _ _ λ before hb.
          From-step _ _
            (report_entry-Keeps (Found target.queue_index entry) context ended_entry _ _)
            (λ _.
              From-write (OnQueue Coherent) _ _
                (λ c h. (
                  found_index c.status.queue target.queue_index entry h.1,
                  adjusted-le (length c.status.queue) c.status.current_index
                      c.status.play_next_queue_len (some target.queue_index),
                  found_song c.status.queue target.queue_index entry h.1,
                ))
                (λ _. kept _ (enter_rest context)))
            (λ c h. h.0))
        (λ c h. h.0)

  enter_found :
      (context : Option Context) (target : GaplessTrackTarget)
      → Kept (do
        found ← gets (λ c. current_queue_entry c.status.queue (some target.queue_index))
        if_some found
            (λ entry. enter_gapless_track context target entry)
            (do clear_gapless_preparation; pure false))
  unfolding current_queue_entry
  enter_found context target = Keeps-from _ (
      From-gets _ _ (λ found.
        From-if_some found _ _
          (λ entry e.
            From-weaken _ (λ c h. (h.0, h.1 ∙ e))
              (enter_gapless_track-Coherent context target entry))
          (λ _.
            From-keeps _ (λ c h. h.0)
              (Keeps-bind _ _ (clear_gapless_preparation-Keeps Coherent) (λ _. Keeps-pure false)))))

  handle_gapless_transition-Coherent :
      (context : Option Context) → Kept (handle_gapless_transition context)
  unfolding handle_gapless_transition
  handle_gapless_transition-Coherent context =
      search (keeps_rules, clear_gapless_preparation-Keeps, enter_found) depth 40

  advance_to-Coherent :
      (context : Context) (current next : ℕ) → Kept (advance_to context current next)
  unfolding advance_to
  advance_to-Coherent context current next =
      search
        (
          keeps_rules, Keeps-modify, current_entry-Keeps, report_entry-Keeps, adjust_write,
          load_track_at_index-Coherent, report_status-Keeps,
        )
        depth 40

  handle_track_ended-Coherent : (context : Option Context) → Kept (handle_track_ended context)
  unfolding handle_track_ended
  handle_track_ended-Coherent context =
      search
        (
          keeps_rules, advance_to-Coherent, transition_to_stopped_end_of_queue-Keeps,
          end_of_queue-Keeps,
        )
        depth 40

  run_attempt-Coherent :
      (plan : OutputStreamRecoveryPlan) (context : Context)
      → Kept (run_output_stream_recovery_attempt plan context)
  unfolding run_output_stream_recovery_attempt
  run_attempt-Coherent plan context =
      search
        (
          keeps_rules, Keeps-modify, reload_track_at_index_exact-Coherent, schedule-Keeps,
          fail_recovery-Keeps,
        )
        depth 40

  process_due-Coherent :
      (context : Option Context) → Kept (process_due_output_stream_recovery context)
  unfolding process_due_output_stream_recovery
  process_due-Coherent context =
      search (keeps_rules, Keeps-modify, run_attempt-Coherent, transition_to_playback_error-Keeps)
        depth 40

  apply_native_event-Coherent :
      (event : PlaybackNativeEvent) (context : Option Context)
      → Kept (apply_native_event event context)
  unfolding apply_native_event
  apply_native_event-Coherent (buffering position_ms) context =
      enter_buffering-Keeps Coherent position_ms
  apply_native_event-Coherent (ready_at position_ms) context =
      leave_buffering-Keeps Coherent position_ms
  apply_native_event-Coherent (playing_at position_ms) context =
      enter_state-Keeps Coherent _ position_ms
  apply_native_event-Coherent (paused_at position_ms) context =
      enter_state-Keeps Coherent _ position_ms
  apply_native_event-Coherent (seek_processed position_ms) context =
      search (keeps_rules, Keeps-modify, confirm_pending_seek-Keeps) depth 40
  apply_native_event-Coherent (error_event message handled) context =
      search (keeps_rules, handle_output_stream_error-Keeps, transition_to_playback_error-Keeps)
        depth 40
  apply_native_event-Coherent (gapless_prepared generation) context =
      handle_gapless_prepared-Keeps Coherent generation
  apply_native_event-Coherent (gapless_failed generation message) context =
      handle_gapless_failed-Keeps Coherent generation message
  apply_native_event-Coherent gapless_transition context =
      handle_gapless_transition-Coherent context
  apply_native_event-Coherent ended context = handle_track_ended-Coherent context

  apply_events-Coherent :
      (events : List PlaybackNativeEvent) (context : Option Context) (changed : Bool)
      → Kept (apply_events events context changed)
  unfolding apply_events
  apply_events-Coherent [] context changed = Keeps-pure changed
  apply_events-Coherent (event ∷ events) context changed =
      Keeps-bind _ _ (apply_native_event-Coherent event context)
        (λ event_changed. apply_events-Coherent events context (changed || event_changed))

  pub process_native_events_inner-Coherent :
      (context : Option Context) (report_changes : Bool)
      → Kept (process_native_events_inner context report_changes)
  unfolding process_native_events_inner
  process_native_events_inner-Coherent context report_changes =
      search (keeps_rules, apply_events-Coherent, process_due-Coherent, report_status-Keeps) depth
        40
