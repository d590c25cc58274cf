-- ===== src/Controller/Events.antt =====
-- The events of the native player, and the recovery of a lost output stream
-- (src-tauri/src/playback/controller.rs).
use transonic.Prelude.{
  ℕ, ◌+◌, String, Bool, true, false, not, ◌&&◌, ◌||◌, Option, none, some, List, [], ◌∷◌, length,
  is_some, ltb, leb, if◌then◌else◌, checked_add_u32, min,
}
use mathlib.Core.Option
use transonic.Result.{Result, ok, err}
use transonic.Text.{format, decimal}
use transonic.Models.{
  PlayingState, playing, paused, interrupted, error, InterruptReason, seeking,
  stream_buffering_stall, full_reload, is_loaded,
}
use transonic.Controller.State.{
  Env, Context, OutputStreamRecoveryPlan, PlaybackNativeEvent, buffering, ready_at, playing_at,
  paused_at, seek_processed, error_event, gapless_prepared, gapless_failed, gapless_transition,
  ended, ServerPlaybackState,
}
use transonic.Controller.Exec.{
  Exec, pure, gets, attempt, ask, tell, modify, ◌>>=◌, ◌>>◌, if_some, on_result, when, ignore,
}
use transonic.Controller.Helpers.{
  playback_error_from_load_failure, is_output_stream_runtime_error, output_stream_recovery_delay,
  output_stream_recovery_max_attempts,
}
use transonic.Controller.Status.{
  with_status, should_autoplay, clear_gapless_preparation, clear_server_reporting, report_status,
  confirm_pending_seek, current_entry, report_entry, report_current_server_playback_stopped,
  sync_current_position_from_backend, sync_actual_stream_info_from_backend,
  stop_backend_after_output_stream_error, transition_to_playback_error,
  transition_to_stopped_end_of_queue,
}
use transonic.Controller.Gapless.{
  handle_gapless_prepared, handle_gapless_failed, handle_gapless_transition,
}
use transonic.Controller.Load.{load_track_at_index, reload_track_at_index_exact}
use transonic.Queue.PlayNext.{adjusted_play_next_queue_len_for_current_change}

-- `u8::saturating_add`.
abbrev pub next_attempt_of : ℕ → ℕ
next_attempt_of attempt = min (attempt + 1) 255

-- What the state becomes when buffering ends.
abbrev pub resumed_state : PlayingState → Option PlayingState → PlayingState
resumed_state interrupted resume = Option.get_or resume paused
resumed_state other resume = other

abbrev pub kept_resume_state : PlayingState → Option PlayingState → Option PlayingState
kept_resume_state interrupted resume = resume
kept_resume_state other resume = some other

abbrev pub buffering_reason : Option ℕ → InterruptReason
buffering_reason none = stream_buffering_stall
buffering_reason (some _) = seeking

-- The message of a failure after which the stream cannot be recovered.
abbrev pub with_stop_error : String → String → Result (Unit {0}) → String
with_stop_error message reason (ok _) = format (message ∷ reason ∷ [])
with_stop_error message reason (err stop_error) =
    format (message ∷ reason ∷ "; failed to stop output stream: " ∷ stop_error ∷ [])

module _ {W : Type 0} ⦃env : Env W⦄ where
  unfoldable pub schedule_output_stream_recovery : String → ℕ → ℕ → Bool → ℕ → Exec W (Unit {0})
  schedule_output_stream_recovery message index requested_position_ms autoplay attempt' = do
    now ← ask env.now
    let delay = output_stream_recovery_delay attempt'
    modify λ c. record c {
      pending_output_stream_recovery = some (record {
        message = message;
        index = index;
        requested_position_ms = requested_position_ms;
        autoplay = autoplay;
        attempt = attempt';
        not_before = now + delay;
      });
      status = record c.status {
        playing_state = interrupted;
        interrupt_reason = some full_reload;
        pending_seek_position_ms = some requested_position_ms;
        current_position_ms = requested_position_ms;
        actual_stream_info = none;
        playback_error = none;
      };
      interrupted_resume_state = none;
    }
    tell (env.spawn_process_native_events_after delay)

  -- Stop the backend for good, with the reason in the error.
  unfoldable pub give_up : Option Context → String → String → Exec W Bool
  give_up context message reason = do
    current_position_ms ← gets (λ c. c.status.current_position_ms)
    stop_result ← stop_backend_after_output_stream_error
    if_some context (λ ctx. report_current_server_playback_stopped ctx current_position_ms)
        (pure tt)
    transition_to_playback_error (with_stop_error message reason stop_result) false
    pure true

  -- Stop the backend and schedule the next attempt at `index`.
  unfoldable pub stop_and_schedule : String → Context → ℕ → Exec W Bool
  stop_and_schedule message context index = do
    ignore sync_current_position_from_backend
    requested_position_ms ← gets (λ c. c.status.current_position_ms)
    autoplay ← gets should_autoplay
    attempts ← gets (λ c. c.output_stream_recovery_attempts)
    stop_result ← stop_backend_after_output_stream_error
    on_result stop_result
        (λ _. do
          schedule_output_stream_recovery message index requested_position_ms autoplay
              (next_attempt_of attempts)
          pure true)
        (λ stop_error. do
          report_current_server_playback_stopped context requested_position_ms
          transition_to_playback_error
              (format (message ∷ "; failed to stop output stream for recovery: " ∷ stop_error ∷ []))
              false
          pure true)

  unfoldable pub recover_output_stream : String → Option Context → Exec W Bool
  recover_output_stream message context = do
    attempts ← gets (λ c. c.output_stream_recovery_attempts)
    current_index ← gets (λ c. c.status.current_index)
    if leb output_stream_recovery_max_attempts attempts
        then give_up context message "; automatic output stream recovery limit reached"
        else if_some context
            (λ ctx.
              if_some current_index (λ index. stop_and_schedule message ctx index)
                (give_up context message
                  "; cannot recover output stream without a current queue index"))
            (give_up none message "; cannot recover output stream without an active session")

  unfoldable pub handle_output_stream_error : String → Option Context → Exec W Bool
  handle_output_stream_error message context = do
    pending ← gets (λ c. is_some c.pending_output_stream_recovery)
    playing_state ← gets (λ c. c.status.playing_state)
    if pending
        then pure false
        else if not (is_loaded playing_state)
        then (do transition_to_playback_error message false; pure true)
        else recover_output_stream message context

  -- The arm of the last attempt.
  unfoldable pub fail_recovery : OutputStreamRecoveryPlan → Context → String → Exec W Bool
  fail_recovery plan context reload_error = do
    modify λ c. record c { output_stream_recovery_attempts = output_stream_recovery_max_attempts }
    report_current_server_playback_stopped context plan.requested_position_ms
    modify λ c. record c {
      status = record c.status {
        playing_state = error;
        current_position_ms = plan.requested_position_ms;
        playback_error = some (
            playback_error_from_load_failure (
              format (
                plan.message
                ∷ "; automatic output stream recovery failed after "
                ∷ decimal plan.attempt
                ∷ " attempts: "
                ∷ reload_error
                ∷ [])));
        interrupt_reason = none;
        pending_seek_position_ms = none;
        actual_stream_info = none;
      };
      interrupted_resume_state = none;
    }
    clear_gapless_preparation
    clear_server_reporting
    pure true

  unfoldable pub run_output_stream_recovery_attempt :
      OutputStreamRecoveryPlan → Context → Exec W Bool
  run_output_stream_recovery_attempt plan context = do
    result ←
        attempt
          (reload_track_at_index_exact context plan.index plan.requested_position_ms plan.autoplay)
    on_result result
        (λ _. do modify λ c. record c { output_stream_recovery_attempts = plan.attempt }; pure true)
        (λ reload_error.
          if ltb plan.attempt output_stream_recovery_max_attempts
          then (do
            modify λ c. record c { output_stream_recovery_attempts = plan.attempt }
            schedule_output_stream_recovery plan.message plan.index plan.requested_position_ms
                plan.autoplay (next_attempt_of plan.attempt)
            pure true)
          else fail_recovery plan context reload_error)

  unfoldable pub process_due_output_stream_recovery : Option Context → Exec W Bool
  process_due_output_stream_recovery context = do
    pending ← gets (λ c. c.pending_output_stream_recovery)
    if_some pending
        (λ plan. do
          now ← ask env.now
          if ltb now plan.not_before then pure false else do
            modify λ c. record c { pending_output_stream_recovery = none }
            if_some context (λ ctx. run_output_stream_recovery_attempt plan ctx)
                (do
                  modify λ c. record c {
                    output_stream_recovery_attempts = output_stream_recovery_max_attempts;
                  }
                  transition_to_playback_error
                      (format (
                        plan.message ∷ "; cannot recover output stream without an active session"
                        ∷ []))
                      false
                  pure true))
        (pure false)

  -- The end of the last track, or of a track that nothing can follow.
  unfoldable pub end_of_queue : Option Context → Exec W Bool
  end_of_queue context = do
    ended_entry ← current_entry
    ended_position_ms ← gets (λ c. c.status.current_position_ms)
    report_entry context ended_entry ended_position_ms ServerPlaybackState.stopped
    transition_to_stopped_end_of_queue
    pure true

  unfoldable pub advance_to : Context → ℕ → ℕ → Exec W Bool
  advance_to context current_index next_index = do
    ended_entry ← current_entry
    ended_position_ms ← gets (λ c. c.status.current_position_ms)
    report_entry (some context) ended_entry ended_position_ms ServerPlaybackState.stopped
    modify (
        with_status λ st. record st {
          play_next_queue_len =
              adjusted_play_next_queue_len_for_current_change (length st.queue) (some current_index)
                st.play_next_queue_len (some next_index);
        })
    load_track_at_index context next_index 0 true
    report_status
    pure false

  unfoldable pub handle_track_ended : Option Context → Exec W Bool
  handle_track_ended context = do
    current ← gets (λ c. c.status.current_index)
    queue_len ← gets (λ c. length c.status.queue)
    if_some current
        (λ current_index.
          if_some (checked_add_u32 current_index 1)
            (λ next_index.
              if ltb next_index queue_len
              then if_some context (λ ctx. advance_to ctx current_index next_index)
                  (do transition_to_stopped_end_of_queue; pure true)
              else end_of_queue context)
            (end_of_queue context))
        (pure false)

  unfoldable pub enter_buffering : ℕ → Exec W Bool
  enter_buffering position_ms = do
    modify λ c. record c {
      interrupted_resume_state =
          kept_resume_state c.status.playing_state c.interrupted_resume_state;
      status = record c.status {
        playing_state = interrupted;
        interrupt_reason = some (buffering_reason c.status.pending_seek_position_ms);
        current_position_ms = position_ms;
        playback_error = none;
      };
    }
    pure true

  unfoldable pub leave_buffering : ℕ → Exec W Bool
  leave_buffering position_ms = do
    modify λ c. record c {
      status = record c.status {
        current_position_ms = position_ms;
        playback_error = none;
        pending_seek_position_ms = none;
        interrupt_reason = none;
        playing_state = resumed_state c.status.playing_state c.interrupted_resume_state;
      };
      interrupted_resume_state = none;
    }
    sync_actual_stream_info_from_backend
    pure true

  -- The events `Playing` and `Paused`.
  unfoldable pub enter_state : PlayingState → ℕ → Exec W Bool
  enter_state playing_state position_ms = do
    modify λ c. record c {
      status = record c.status {
        playing_state = playing_state;
        interrupt_reason = none;
        current_position_ms = position_ms;
        playback_error = none;
        pending_seek_position_ms = none;
      };
      interrupted_resume_state = none;
    }
    sync_actual_stream_info_from_backend
    pure true

  unfoldable pub apply_native_event : PlaybackNativeEvent → Option Context → Exec W Bool
  apply_native_event (buffering position_ms) context = enter_buffering position_ms
  apply_native_event (ready_at position_ms) context = leave_buffering position_ms
  apply_native_event (playing_at position_ms) context = enter_state playing position_ms
  apply_native_event (paused_at position_ms) context = enter_state paused position_ms
  apply_native_event (seek_processed position_ms) context = do
    modify
        (with_status λ st. record st { current_position_ms = position_ms; playback_error = none })
    confirm_pending_seek
    pure true
  apply_native_event (error_event message handled) context =
      if not handled && is_output_stream_runtime_error message
      then handle_output_stream_error message context
      else do transition_to_playback_error message handled; pure true
  apply_native_event (gapless_prepared generation) context = handle_gapless_prepared generation
  apply_native_event (gapless_failed generation message) context =
      handle_gapless_failed generation message
  apply_native_event gapless_transition context = handle_gapless_transition context
  apply_native_event ended context = handle_track_ended context

  -- `for event in events { changed |= self.apply_native_event(event, context)?; }`
  unfoldable pub apply_events : List PlaybackNativeEvent → Option Context → Bool → Exec W Bool
  apply_events [] context changed = pure changed
  apply_events (event ∷ events) context changed = do
    event_changed ← apply_native_event event context
    apply_events events context (changed || event_changed)

  unfoldable pub process_native_events_inner : Option Context → Bool → Exec W Bool
  process_native_events_inner context report_changes = do
    events ← ask env.drain_events
    events_changed ← apply_events events context false
    recovery_changed ← process_due_output_stream_recovery context
    when ((events_changed || recovery_changed) && report_changes) report_status
    pure (events_changed || recovery_changed)
