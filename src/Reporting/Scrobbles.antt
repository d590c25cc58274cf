-- ===== src/Reporting/Scrobbles.antt =====
-- How often a track is scrobbled as played, and from when on (src-tauri/src/playback/server_reporting.rs).
pub mod Track
use transonic.Prelude.{
  either_branch, option_branch, ℕ, ◌+◌, ◌*◌, ◌/◌, ◌≤◌, ◌<◌, min, arith, String, Bool, true, false,
  not, ◌&&◌, ◌≡◌, refl, ap, sym, ◌∙◌, subst, Option, none, some, List, [], ◌∷◌, ◌++◌, if◌then◌else◌,
  str_eq, eq_iff, ◌==◌, ==_iff, ltb, leb,
}
use transonic.Controller.State.{
  ServerPlaybackState, starting, playing, paused, stopped, ServerReport,
}
use transonic.Reporting.Sessions.{
  is_playing, FallbackTrackKey, ActiveFallbackScrobbleSession, ServerCall, report_playback,
  now_playing, played, fallback_track_key, index_eq, key_eq, session_key, refresh_progress,
  update_session, new_fallback_session, fallback_scrobble_threshold_ms,
  should_submit_fallback_scrobble, submit_fallback_scrobble_if_ready,
}
use transonic.Reporting.Worker.{
  Received, command, timeout, report, clear, Turn, Worker, reporting_context, leave_other_track,
  enter_track, report_now_playing, follow_state, handle_fallback_report, step, work,
}
use transonic.Reporting.Scrobbles.Track.{
  count_played, count_played-append, unspent, pending, AtTrack, SpendsAt, handle-SpendsAt, GoesOn,
  report_key,
}

-- A turn of the loop, for one track of a server without `reportPlayback`: a report of it that does not
-- stop it, or a time-out.
abbrev pub OfTrack : FallbackTrackKey → Received → Type 0
OfTrack key timeout = Unit {0}
OfTrack key (command clear) = ⊥
OfTrack key (command (report r)) =
    (report_key r ≡ key) × (r.playback_report ≡ false) × GoesOn r.state

abbrev pub AllOfTrack : FallbackTrackKey → List (Turn × Received) → Type 0
AllOfTrack key [] = Unit {0}
AllOfTrack key (event ∷ events) = OfTrack key event.1 × AllOfTrack key events

abbrev StepSpends : FallbackTrackKey → Worker → List ServerCall × Worker → Type 0
StepSpends key before out =
    (count_played out.0 + pending out.1.active_fallback_scrobble
      ≡ pending before.active_fallback_scrobble)
    × AtTrack key out.1.active_fallback_scrobble

report-StepSpends :
    (key : FallbackTrackKey) (turn : Turn) (r : ServerReport) (worker : Worker)
    → OfTrack key (command (report r))
    → AtTrack key worker.active_fallback_scrobble
    → StepSpends key worker (step turn (command (report r)) worker)
unfolding step
report-StepSpends key turn r worker of at =
    either_branch (StepSpends key worker) r.playback_report (λ e. let no = of.1 in cc)
      λ _.
        let active = worker.active_fallback_scrobble in
        let at_report = subst (λ k. AtTrack k active) (sym of.0) at in
        subst (λ k. SpendsAt k (pending active) (handle_fallback_report turn r active)) of.0
          (handle-SpendsAt turn r active of.2 at_report)

timeout-StepSpends :
    (key : FallbackTrackKey) (turn : Turn) (worker : Worker)
    → AtTrack key worker.active_fallback_scrobble
    → StepSpends key worker (step turn timeout worker)
unfolding step
timeout-StepSpends key turn worker at =
    option_branch (StepSpends key worker) worker.active_report_playback (omega arith, at)
      λ session.
        either_branch (StepSpends key worker) (not (is_playing session.state))
          (λ _. (omega arith, at)) (λ _. (omega arith, at))

step-StepSpends :
    (key : FallbackTrackKey) (turn : Turn) (received : Received) (worker : Worker)
    → OfTrack key received
    → AtTrack key worker.active_fallback_scrobble
    → StepSpends key worker (step turn received worker)
step-StepSpends key turn timeout worker of at = timeout-StepSpends key turn worker at
step-StepSpends key turn (command clear) worker of at = absurd of
step-StepSpends key turn (command (report r)) worker of at =
    report-StepSpends key turn r worker of at

unspent_bound : (b : Bool) → unspent b ≤ 1
unspent_bound true = omega arith
unspent_bound false = omega arith

pending_bound : (session : Option ActiveFallbackScrobbleSession) → pending session ≤ 1
pending_bound none = omega arith
pending_bound (some session) = unspent_bound session.played_scrobbled

work-spends :
    (key : FallbackTrackKey) (events : List (Turn × Received)) (worker : Worker)
    → AllOfTrack key events
    → AtTrack key worker.active_fallback_scrobble
    → count_played (work events worker).0 ≤ pending worker.active_fallback_scrobble
unfolding work
work-spends key [] worker of at = omega arith
work-spends key ((turn, received) ∷ events) worker of at =
    let (calls, worker') = step turn received worker in
    let spends = step-StepSpends key turn received worker of.0 at in
    let rest = work-spends key events worker' of.1 spends.1 in
    omega (arith, spends.0, rest, count_played-append calls (work events worker').0)

-- While the reports are all of one track, which they do not stop, of a server without `reportPlayback`,
-- the track is scrobbled as played at most once, whatever the clock shows and the states and positions
-- are; and not at all if the session that is open already has. An open session is of that track.
pub work-count_played :
    (key : FallbackTrackKey) (events : List (Turn × Received)) (worker : Worker)
    → AllOfTrack key events
    → AtTrack key worker.active_fallback_scrobble
    → (count_played (work events worker).0 ≤ pending worker.active_fallback_scrobble)
      × (pending worker.active_fallback_scrobble ≤ 1)
work-count_played key events worker of at =
    (work-spends key events worker of at, pending_bound worker.active_fallback_scrobble)
