-- ===== src/Controller/Status.antt =====
-- The parts of the controller that every method uses: the derived status, the reports, the positions
-- and the stream information that it reads back from the backend.
use transonic.Prelude.{
  ℕ, ◌*◌, String, Bool, false, not, ◌&&◌, ◌||◌, Option, none, some, List, [], ◌∷◌, map, length,
  is_empty, is_some, ltb, if◌then◌else◌, saturating_add_u32, checked_add_u32, wrapping_add_u32,
}
use mathlib.Core.Option
use transonic.Result.{Result}
use transonic.Text.{format, decimal}
use transonic.Models.{
  SongResponse, PlaybackError, PlaybackStatus, PlayingState, playing, paused, stopped, idle, error,
  GaplessStatus, unavailable, off, gapless_idle, PlaybackStateFile, is_playing_or_paused, is_loaded,
}
use transonic.Models
use transonic.Controller.State.{
  Controller, Env, Context, GaplessTrackTarget, PreparedGaplessTrackState, preparing, ready, failed,
  ServerPlaybackState,
}
use transonic.Controller.Exec.{
  Exec, pure, raise, gets, attempt, call, ask, tell, modify, ◌>>=◌, ◌>>◌, if_some, on_result, when,
  ignore,
}
use transonic.Controller.Helpers.{
  current_queue_entry, current_song_id, clamp_play_next_queue_len, from_output_device_id,
  server_playback_media_type,
}

abbrev pub with_status : (PlaybackStatus → PlaybackStatus) → Controller → Controller
with_status f c = record c { status = f c.status }

unfoldable pub supports_gapless_playback : Controller → Bool
supports_gapless_playback c = c.playback_capabilities.gapless_playback

unfoldable pub can_prepare_gapless_from_current_state : Controller → Bool
can_prepare_gapless_from_current_state c = is_playing_or_paused c.status.playing_state

unfoldable pub target_at : List SongResponse → Option ℕ → Option GaplessTrackTarget
target_at queue none = none
target_at queue (some next_index) = elim (current_queue_entry queue (some next_index)) [
  | none ↦ none
  | some entry ↦ some (record { queue_index = next_index; song_id = entry.id })
]

unfoldable pub current_gapless_target : Controller → Option GaplessTrackTarget
unfolding target_at
current_gapless_target c = elim c.status.current_index [
  | none ↦ none
  | some current_index ↦ target_at c.status.queue (checked_add_u32 current_index 1)
]

unfoldable pub gapless_target_label : Controller → GaplessTrackTarget → String
gapless_target_label c target =
    let number = decimal (saturating_add_u32 target.queue_index 1) in
    elim (current_queue_entry c.status.queue (some target.queue_index)) [
      | none ↦ format ("(#" ∷ number ∷ " " ∷ target.song_id ∷ ")" ∷ [])
      | some entry ↦ format ("(#" ∷ number ∷ " " ∷ entry.title ∷ ")" ∷ [])
    ]

unfoldable pub prepared_status : Controller → PreparedGaplessTrackState → GaplessStatus
prepared_status c (preparing target generation) = record {
  state = Models.preparing;
  message = format ("gapless: preparing " ∷ gapless_target_label c target ∷ []);
}
prepared_status c (ready target generation) = record {
  state = Models.ready;
  message = format ("gapless: ready " ∷ gapless_target_label c target ∷ []);
}
prepared_status c (failed target generation) = record {
  state = Models.failed;
  message =
      let reason = Option.get_or c.gapless_failure "unknown error" in
      format ("gapless: failed " ∷ gapless_target_label c target ∷ " (" ∷ reason ∷ ")" ∷ []);
}

unfoldable pub idle_status : Controller → GaplessStatus
idle_status c =
    if can_prepare_gapless_from_current_state c
    then elim (current_gapless_target c) [
      | none ↦ record { state = gapless_idle; message = "gapless: idle (no next track)" }
      | some target ↦ record {
        state = gapless_idle;
        message = format ("gapless: idle " ∷ gapless_target_label c target ∷ []);
      }
    ]
    else record { state = gapless_idle; message = "gapless: idle (waiting for playback)" }

unfoldable pub gapless_status_of : Controller → GaplessStatus
gapless_status_of c =
    if not (supports_gapless_playback c)
    then record { state = unavailable; message = "gapless: unavailable" }
    else if not c.gapless_playback_enabled
    then record { state = off; message = "gapless: off" }
    else elim c.prepared_next [ none ↦ idle_status c | some prepared ↦ prepared_status c prepared ]

unfoldable pub should_autoplay : Controller → Bool
should_autoplay c =
    Models.state_eq c.status.playing_state playing || elim c.interrupted_resume_state [
      | none ↦ false
      | some resume ↦ Models.state_eq resume playing
    ]

module _ {W : Type 0} ⦃env : Env W⦄ where
  unfoldable pub update_gapless_status : Exec W (Unit {0})
  update_gapless_status =
      modify λ c. with_status (λ st. record st { gapless_status = gapless_status_of c }) c

  unfoldable pub refresh_derived_status : Exec W (Unit {0})
  refresh_derived_status = do
    update_gapless_status
    modify λ c.
        with_status
          (λ st. record st { output_host = Option.bind c.output_device_id from_output_device_id }) c

  unfoldable pub report_status : Exec W (Unit {0})
  report_status = do
    refresh_derived_status
    status ← gets (λ c. c.status)
    tell (env.report_state status)

  -- `state`: the public snapshot.
  unfoldable pub state : Exec W PlaybackStatus
  state = do refresh_derived_status; gets (λ c. c.status)

  unfoldable pub clear_gapless_preparation : Exec W (Unit {0})
  clear_gapless_preparation = do
    prepared ← gets (λ c. is_some c.prepared_next || is_some c.status.prepared_stream_info)
    when prepared (tell env.clear_prepared)
    modify λ c. record c {
      prepared_next = none;
      status = record c.status { prepared_stream_info = none };
      gapless_failure = none;
    }
    update_gapless_status

  unfoldable pub clear_native_events : Exec W (Unit {0})
  clear_native_events = do _ ← ask env.drain_events; pure tt

  unfoldable pub clear_server_reporting : Exec W (Unit {0})
  clear_server_reporting = tell env.server_clear

  unfoldable pub sync_queue_state : Exec W (Unit {0})
  sync_queue_state = do status ← gets (λ c. c.status); tell (env.sync_queue status)

  unfoldable pub persist_state : Exec W (Unit {0})
  persist_state = do
    profile ← gets (λ c. c.active_profile_id)
    deferred ← gets (λ c. c.restore_state_deferred)
    status ← gets (λ c. c.status)
    if_some profile
        (λ profile_id. when (not deferred) (
          tell (
            env.save (record {
              version = 1;
              profile_id = profile_id;
              queue = status.queue;
              current_index = status.current_index;
              play_next_queue_len = status.play_next_queue_len;
              current_position_ms = status.current_position_ms;
            }))))
        (pure tt)

  -- An index of the map is kept as an `i32`; queues are shorter than 2³¹.
  unfoldable pub record_queue_change : List (Option ℕ) → Exec W (Unit {0})
  record_queue_change index_map = modify (
      with_status λ st. record st {
        queue_revision = wrapping_add_u32 st.queue_revision 1;
        queue_index_map =
            map
              (λ new_index. Option.bind new_index (λ v. if ltb v 2147483648 then some v else none))
              index_map;
      })

  unfoldable pub reset_output_stream_recovery_attempts : Exec W (Unit {0})
  reset_output_stream_recovery_attempts =
      modify
        λ c. record c { output_stream_recovery_attempts = 0; pending_output_stream_recovery = none }

  unfoldable pub confirm_pending_seek : Exec W (Unit {0})
  confirm_pending_seek = modify (with_status λ st. record st { pending_seek_position_ms = none })

  unfoldable pub report_server_playback_state :
      Context → SongResponse → ℕ → ServerPlaybackState → Exec W (Unit {0})
  report_server_playback_state context entry position_ms playback_state =
      if_some context.profile_id
        (λ profile_id. do
          queue_index ← gets (λ c. c.status.current_index)
          tell (
              env.server_report_state (record {
                profile_id = profile_id;
                playback_report = context.playback_report;
                track = record {
                  song_id = entry.id;
                  media_type = server_playback_media_type entry;
                  queue_index = queue_index;
                  duration_ms = Option.map (λ duration. duration * 1000) entry.duration;
                };
                position_ms = position_ms;
                state = playback_state;
              })))
        (pure tt)

  unfoldable pub current_entry : Exec W (Option SongResponse)
  current_entry = gets (λ c. current_queue_entry c.status.queue c.status.current_index)

  -- `if let (Some(context), Some(entry)) = (context, entry) { self.report_server_playback_state(…) }`.
  unfoldable pub report_entry :
      Option Context → Option SongResponse → ℕ → ServerPlaybackState → Exec W (Unit {0})
  report_entry context entry position_ms playback_state =
      if_some context
        (λ ctx.
          if_some entry (λ e. report_server_playback_state ctx e position_ms playback_state)
            (pure tt))
        (pure tt)

  unfoldable pub report_current_server_playback_stopped : Context → ℕ → Exec W (Unit {0})
  report_current_server_playback_stopped context position_ms = do
    entry ← current_entry
    report_entry (some context) entry position_ms ServerPlaybackState.stopped

  unfoldable pub sync_current_position_from_backend : Exec W (Unit {0})
  sync_current_position_from_backend = do
    playing_state ← gets (λ c. c.status.playing_state)
    when (is_playing_or_paused playing_state) do
      position ← attempt (call env.current_position_ms)
      on_result position
          (λ current_position_ms. modify (
            with_status
              λ st. record st { current_position_ms = current_position_ms; playback_error = none }))
          (λ e. raise (format ("Failed to sync the backend playback position: " ∷ e ∷ [])))

  unfoldable pub sync_current_position_for_queue_mutation : Exec W (Unit {0})
  sync_current_position_for_queue_mutation = ignore sync_current_position_from_backend

  unfoldable pub clear_actual_stream_info : Exec W (Unit {0})
  clear_actual_stream_info = modify (with_status λ st. record st { actual_stream_info = none })

  unfoldable pub sync_actual_stream_info_from_backend : Exec W (Unit {0})
  sync_actual_stream_info_from_backend = do
    has_track ← gets (λ c. is_some c.status.current_index && is_some c.status.current_song_id)
    playing_state ← gets (λ c. c.status.playing_state)
    if not has_track || not (is_loaded playing_state) then clear_actual_stream_info else do
      stream ← attempt (call env.current_stream_info)
      on_result stream
          (λ found.
            if_some found
              (λ info. modify (with_status λ st. record st { actual_stream_info = some info }))
              (pure tt))
          (λ _. pure tt)

  unfoldable pub replace_actual_stream_info_from_backend : Exec W (Unit {0})
  replace_actual_stream_info_from_backend = do
    stream ← attempt (call env.current_stream_info)
    on_result stream (λ info. modify (with_status λ st. record st { actual_stream_info = info }))
        (λ _. pure tt)

  unfoldable pub transition_to_stopped_end_of_queue : Exec W (Unit {0})
  transition_to_stopped_end_of_queue = do
    clear_gapless_preparation
    clear_server_reporting
    modify λ c. record c {
      status = record c.status {
        playing_state = stopped;
        current_position_ms = 0;
        playback_error = none;
        interrupt_reason = none;
        pending_seek_position_ms = none;
        actual_stream_info = none;
      };
      interrupted_resume_state = none;
    }

  unfoldable pub transition_to_playback_error : String → Bool → Exec W (Unit {0})
  transition_to_playback_error message handled = modify λ c. record c {
    status = record c.status {
      playing_state = error;
      interrupt_reason = none;
      pending_seek_position_ms = none;
      playback_error = some (record { message = message; handled = handled });
      actual_stream_info = none;
    };
    interrupted_resume_state = none;
  }

  unfoldable pub stop_backend_after_output_stream_error : Exec W (Result (Unit {0}))
  stop_backend_after_output_stream_error = do
    stop_result ← attempt (call env.stop)
    clear_native_events
    clear_gapless_preparation
    clear_server_reporting
    clear_actual_stream_info
    pure stop_result

  unfoldable pub ensure_current_index : Exec W ℕ
  ensure_current_index = do
    status ← gets (λ c. c.status)
    if is_empty status.queue
        then raise "Playback queue is empty."
        else if_some status.current_index
            (λ index.
              if ltb index (length status.queue)
              then pure index
              else raise "Current playback index is out of range.")
            (do
              modify (
                  with_status
                    λ st. clamp_play_next_queue_len (record st { current_index = some 0 }))
              modify (
                  with_status
                    λ st. record st { current_song_id = current_song_id st.queue (some 0) })
              pure 0)
