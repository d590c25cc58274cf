-- ===== src/Controller/Gapless.antt =====
-- The gapless preparation of the next track (src-tauri/src/playback/controller.rs).
use transonic.Prelude.{
  ℕ, String, Bool, true, false, not, ◌&&◌, ◌||◌, Option, none, some, length, ◌==◌, str_eq,
  if◌then◌else◌,
}
use mathlib.Core.Option
use transonic.Models.{SongResponse, PlaybackStreamInfo, PlaybackStatus, playing, activate_prepared}
use transonic.Controller.State.{
  Env, Context, GaplessTrackTarget, PreparedGaplessTrackState, preparing, ready, failed,
  prepared_target, prepared_generation, ServerPlaybackState,
}
use transonic.Controller.Exec.{
  Exec, pure, raise, gets, attempt, call, modify, ◌>>=◌, ◌>>◌, if_some, on_result, when, ignore,
}
use transonic.Controller.Helpers.{is_missing_prepared_stream_error, current_queue_entry}
use transonic.Controller.Status.{
  with_status, supports_gapless_playback, can_prepare_gapless_from_current_state,
  current_gapless_target, update_gapless_status, clear_gapless_preparation, current_entry,
  report_entry, sync_actual_stream_info_from_backend,
}
use transonic.Controller.Stream.{prepare_stream_for_song}
use transonic.Queue.PlayNext.{adjusted_play_next_queue_len_for_current_change}

abbrev pub target_eq : GaplessTrackTarget → GaplessTrackTarget → Bool
target_eq a b = a.queue_index == b.queue_index && str_eq a.song_id b.song_id

-- The target of a preparation that has not failed.
abbrev pub live_target : PreparedGaplessTrackState → Option GaplessTrackTarget
live_target (preparing target generation) = some target
live_target (ready target generation) = some target
live_target (failed target generation) = none

abbrev pub is_prepared_for : Option PreparedGaplessTrackState → GaplessTrackTarget → Bool
is_prepared_for none target = false
is_prepared_for (some prepared) target = target_eq (prepared_target prepared) target

abbrev pub as_activated : Bool → PlaybackStreamInfo → PlaybackStreamInfo
as_activated autoplay info = record info { request_kind = activate_prepared; autoplay = autoplay }

-- `prepared_stream_info.take()`, marked as activated, becomes the active stream.
abbrev pub take_prepared_stream : Bool → PlaybackStatus → PlaybackStatus
take_prepared_stream autoplay st = record st {
  active_stream_info = Option.map (as_activated autoplay) st.prepared_stream_info;
  prepared_stream_info = none;
}

abbrev pub generation_eq : Option ℕ → ℕ → Bool
generation_eq none generation = false
generation_eq (some g) generation = g == generation

module _ {W : Type 0} ⦃env : Env W⦄ where
  unfoldable pub try_activate_backend_prepared_track : Bool → Exec W Bool
  try_activate_backend_prepared_track autoplay = do
    result ← attempt (call (env.activate_prepared autoplay))
    on_result result
        (λ _. do
          modify λ c. record c { gapless_failure = none; prepared_next = none }
          update_gapless_status
          pure true)
        (λ e.
          if is_missing_prepared_stream_error e
          then (do clear_gapless_preparation; pure false)
          else raise e)

  unfoldable pub activate_prepared_state : PreparedGaplessTrackState → Bool → Exec W Bool
  activate_prepared_state prepared autoplay =
      if_some (live_target prepared)
        (λ _. do
          activated ← try_activate_backend_prepared_track autoplay
          when activated (modify (with_status (take_prepared_stream autoplay)))
          pure activated)
        (do clear_gapless_preparation; pure false)

  unfoldable pub try_activate_prepared_gapless_track : ℕ → SongResponse → ℕ → Bool → Exec W Bool
  try_activate_prepared_gapless_track index entry requested_position_ms autoplay = do
    supported ← gets supports_gapless_playback
    prepared_next ← gets (λ c. c.prepared_next)
    if not supported
        then pure false
        else if_some prepared_next
            (λ prepared.
              let target = prepared_target prepared in
              if not (requested_position_ms == 0)
                || not (target.queue_index == index)
                || not (str_eq target.song_id entry.id)
              then (do clear_gapless_preparation; pure false)
              else activate_prepared_state prepared autoplay)
            (pure false)

  unfoldable pub prepare_target : Context → GaplessTrackTarget → Exec W (Unit {0})
  prepare_target context target = do
    clear_gapless_preparation
    found ← gets (λ c. current_queue_entry c.status.queue (some target.queue_index))
    entry ← if_some found pure (raise "Current playback entry does not exist.")
    result ← attempt (prepare_stream_for_song context entry)
    on_result result
        (λ generation. do
          modify λ c. record c {
            gapless_failure = none;
            prepared_next = some (preparing target generation);
          }
          update_gapless_status)
        (λ e. do
          modify
              λ c. record c { gapless_failure = some e; prepared_next = some (failed target none) }
          update_gapless_status
          raise e)

  unfoldable pub sync_gapless_for_current_track : Option Context → Exec W (Unit {0})
  sync_gapless_for_current_track context = do
    supported ← gets supports_gapless_playback
    possible ← gets (λ c. c.gapless_playback_enabled && can_prepare_gapless_from_current_state c)
    target ← gets current_gapless_target
    prepared_next ← gets (λ c. c.prepared_next)
    if not supported
        then clear_gapless_preparation
        else if_some context
            (λ ctx.
              if not possible
              then clear_gapless_preparation
              else if_some target
                  (λ next.
                    if is_prepared_for prepared_next next then pure tt else prepare_target ctx next)
                  clear_gapless_preparation)
            clear_gapless_preparation

  unfoldable pub confirm_generation : Option PreparedGaplessTrackState → ℕ → Exec W Bool
  confirm_generation (some (preparing target current_generation)) generation =
      if current_generation == generation
      then (do
        modify
            λ c. record c { gapless_failure = none; prepared_next = some (ready target generation) }
        pure true)
      else pure false
  confirm_generation _ generation = pure false

  unfoldable pub handle_gapless_prepared : ℕ → Exec W Bool
  handle_gapless_prepared generation = do
    prepared_next ← gets (λ c. c.prepared_next)
    confirm_generation prepared_next generation

  unfoldable pub handle_gapless_failed : ℕ → String → Exec W Bool
  handle_gapless_failed generation message = do
    prepared_next ← gets (λ c. c.prepared_next)
    if_some prepared_next
        (λ prepared.
          if generation_eq (prepared_generation prepared) generation
          then (do
            modify λ c. record c {
              gapless_failure = some message;
              prepared_next = some (failed (prepared_target prepared) (some generation));
            }
            pure true)
          else pure false)
        (pure false)

  -- The rest of `handle_gapless_transition`, for the entry that the backend has begun to play.
  unfoldable pub enter_gapless_track :
      Option Context → GaplessTrackTarget → SongResponse → Exec W Bool
  enter_gapless_track context target entry = do
    ended_entry ← current_entry
    ended_position_ms ← gets (λ c. c.status.current_position_ms)
    report_entry context ended_entry ended_position_ms ServerPlaybackState.stopped
    modify (
        with_status λ st. take_prepared_stream true (record st {
          play_next_queue_len =
              adjusted_play_next_queue_len_for_current_change (length st.queue) st.current_index
                st.play_next_queue_len (some target.queue_index);
          playing_state = playing;
          interrupt_reason = none;
          pending_seek_position_ms = none;
          current_index = some target.queue_index;
          current_song_id = some entry.id;
          current_position_ms = 0;
          playback_error = none;
        }))
    sync_actual_stream_info_from_backend
    modify λ c. record c {
      interrupted_resume_state = none;
      gapless_failure = none;
      prepared_next = none;
    }
    ignore (sync_gapless_for_current_track context)
    current ← current_entry
    position_ms ← gets (λ c. c.status.current_position_ms)
    report_entry context current position_ms ServerPlaybackState.playing
    pure true

  unfoldable pub handle_gapless_transition : Option Context → Exec W Bool
  handle_gapless_transition context = do
    supported ← gets supports_gapless_playback
    live ← gets (λ c. Option.bind c.prepared_next live_target)
    if not supported
        then (do clear_gapless_preparation; pure false)
        else if_some live
            (λ target. do
              found ← gets (λ c. current_queue_entry c.status.queue (some target.queue_index))
              if_some found (λ entry. enter_gapless_track context target entry)
                  (do clear_gapless_preparation; pure false))
            (pure false)
