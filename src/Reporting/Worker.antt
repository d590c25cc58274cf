-- ===== src/Reporting/Worker.antt =====
-- The loop of the reporter's thread (src-tauri/src/playback/server_reporting.rs). A step is one turn of
-- the loop, with what the clock shows at each place of it that reads the clock.
use transonic.Prelude.{ℕ, true, not, Option, none, some, List, [], ◌∷◌, ◌++◌, if◌then◌else◌}
use transonic.Controller.State.{
  ServerPlaybackState, starting, playing, paused, stopped, ServerReport,
}
use transonic.Reporting.Sessions.{
  idle_timeout, is_playing, Readings, ServerPlaybackReportingContext, ActiveReportPlaybackSession,
  ActiveFallbackScrobbleSession, ServerCall, report_playback, now_playing, new_report_session,
  next_timeout, heartbeat_position_ms, new_fallback_session, fallback_track_key, key_eq,
  session_key, update_session, submit_fallback_scrobble_if_ready, finalize_fallback_scrobble,
}

pub data ServerPlaybackCommand : Type 0 where
  report : ServerReport → ServerPlaybackCommand
  clear : ServerPlaybackCommand

-- What `recv_timeout` returns, but for the end of the channel, which ends the loop.
pub data Received : Type 0 where
  command : ServerPlaybackCommand → Received
  timeout : Received

-- The readings of a turn, in their order: where the session of another track is closed; where a session
-- is started or updated, or a heartbeat is sent; and where a scrobble is submitted. A turn that does not
-- come to a place ignores its readings, and where only `Instant::now()` is called, that of `elapsed()` is ignored.
pub record Turn : Type 0 where
  pub leaving : Readings
  pub updating : Readings
  pub submitting : Readings

pub record Worker : Type 0 where
  pub active_report_playback : Option ActiveReportPlaybackSession
  pub active_fallback_scrobble : Option ActiveFallbackScrobbleSession

abbrev pub idle_worker : Worker
idle_worker = record { active_report_playback = none; active_fallback_scrobble = none }

abbrev pub reporting_context : ServerReport → ServerPlaybackReportingContext
reporting_context r = record { profile_id = r.profile_id; playback_report = r.playback_report }

-- The session of another track is closed.
unfoldable pub leave_other_track :
    Readings
    → ServerReport
    → Option ActiveFallbackScrobbleSession
    → List ServerCall × Option ActiveFallbackScrobbleSession
unfolding finalize_fallback_scrobble session_key fallback_track_key
leave_other_track readings r none = ([], none)
leave_other_track readings r (some session) =
    if key_eq (session_key session) (fallback_track_key (reporting_context r) r.track)
    then ([], some session)
    else (finalize_fallback_scrobble readings (some session), none)

unfoldable pub enter_track :
    Readings → ServerReport → Option ActiveFallbackScrobbleSession → ActiveFallbackScrobbleSession
unfolding new_fallback_session update_session
enter_track readings r none =
    new_fallback_session readings.set_at (reporting_context r) r.track r.position_ms r.state
enter_track readings r (some session) = update_session readings r.position_ms r.state session

unfoldable pub report_now_playing :
    ActiveFallbackScrobbleSession → List ServerCall × ActiveFallbackScrobbleSession
report_now_playing session = if session.now_playing_reported then ([], session) else (
  now_playing session.context session.track ∷ [],
  record session { now_playing_reported = true },
)

-- What the session does in the state that is reported.
unfoldable pub follow_state :
    Readings
    → ServerPlaybackState
    → ActiveFallbackScrobbleSession
    → List ServerCall × Option ActiveFallbackScrobbleSession
unfolding report_now_playing submit_fallback_scrobble_if_ready finalize_fallback_scrobble
follow_state readings starting session = ([], some session)
follow_state readings playing session =
    let (announced, reported) = report_now_playing session in
    let (submitted, session') = submit_fallback_scrobble_if_ready readings reported in
    (announced ++ submitted, some session')
follow_state readings paused session =
    let (submitted, session') = submit_fallback_scrobble_if_ready readings session in
    (submitted, some session')
follow_state readings stopped session = (finalize_fallback_scrobble readings (some session), none)

unfoldable pub handle_fallback_report :
    Turn
    → ServerReport
    → Option ActiveFallbackScrobbleSession
    → List ServerCall × Option ActiveFallbackScrobbleSession
unfolding leave_other_track enter_track follow_state
handle_fallback_report turn r active_session =
    let (closed, remaining) = leave_other_track turn.leaving r active_session in
    let (calls, session) =
      follow_state turn.submitting r.state (enter_track turn.updating r remaining) in
    (closed ++ calls, session)

abbrev pub session_after : ℕ → ServerReport → Option ActiveReportPlaybackSession
session_after now r = elim r.state [
  | stopped ↦ none
  | _ ↦ some (new_report_session now (reporting_context r) r.track r.position_ms r.state)
]

abbrev pub beat : Readings → ActiveReportPlaybackSession → Worker → List ServerCall × Worker
beat readings session worker =
    if not (is_playing session.state)
    then ([], worker)
    else let position_ms = heartbeat_position_ms readings.elapsed_at session in
      (
        report_playback session.context session.track position_ms playing ∷ [],
        record worker {
          active_report_playback =
              some (record session {
                position_ms = position_ms;
                position_updated_at = readings.set_at;
              });
        },
      )

unfoldable pub step : Turn → Received → Worker → List ServerCall × Worker
unfolding heartbeat_position_ms handle_fallback_report new_report_session
step turn (command (report r)) worker =
    if r.playback_report
    then (
      report_playback (reporting_context r) r.track r.position_ms r.state ∷ [],
      record {
        active_report_playback = session_after turn.updating.set_at r;
        active_fallback_scrobble = none;
      },
    )
    else let (calls, session) = handle_fallback_report turn r worker.active_fallback_scrobble in
      (calls, record { active_report_playback = none; active_fallback_scrobble = session })
step turn (command clear) worker = ([], idle_worker)
step turn timeout worker = elim worker.active_report_playback [
  | none ↦ ([], worker)
  | some session ↦ beat turn.updating session worker
]

-- How long the loop waits for the next command.
unfoldable pub wait : ℕ → Worker → ℕ
unfolding next_timeout
wait now worker = elim worker.active_report_playback [
  | none ↦ idle_timeout
  | some session ↦ next_timeout now session
]

unfoldable pub work : List (Turn × Received) → Worker → List ServerCall × Worker
unfolding step
work [] worker = ([], worker)
work ((turn, received) ∷ rest) worker =
    let (calls, worker') = step turn received worker in
    let (later, end) = work rest worker' in (calls ++ later, end)
