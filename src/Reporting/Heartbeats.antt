-- ===== src/Reporting/Heartbeats.antt =====
-- The heartbeats of `reportPlayback`, and the two kinds of session in one worker
-- (src-tauri/src/playback/server_reporting.rs).
use transonic.Prelude.{
  either_branch, option_branch, ℕ, ◌+◌, ◌-◌, ◌*◌, ◌≤◌, ◌<◌, arith, not, ◌≡◌, refl, ap, sym, subst,
  Option, none, some, List, [], ◌∷◌, ◌++◌, map, ◌⊎◌, inl, inr, leb, u64_mod, saturating_add_u64,
}
use transonic.Controller.State.{playing, ServerPlaybackTrack}
use transonic.Reporting.Sessions.{
  nanos_per_milli, heartbeat_interval, idle_timeout, ServerPlaybackReportingContext, is_playing,
  elapsed_ms, ActiveReportPlaybackSession, ActiveFallbackScrobbleSession, ServerCall,
  report_playback, heartbeat_position_ms, next_timeout,
}
use transonic.Reporting.Clock.{AreRead, loss}
use transonic.Reporting.Worker.{
  Received, command, timeout, report, clear, Turn, Worker, idle_worker, step, wait, work,
}

-- The readings of a row of turns, from a time on. The clock does not run back, the readings of one turn
-- are at most the gap apart, and the position, in nanoseconds, fits 64 bits.
abbrev pub IsClock : ℕ → ℕ → ℕ → ℕ → List Turn → Type 0
IsClock gap position start from [] = Unit {0}
IsClock gap position start from (turn ∷ turns) =
    AreRead from gap turn.updating
    × (position * nanos_per_milli + (turn.updating.elapsed_at - start) < u64_mod)
    × IsClock gap position start turn.updating.set_at turns

abbrev pub timeouts : List Turn → List (Turn × Received)
timeouts turns = map (λ turn. (turn, timeout)) turns

-- A position, in milliseconds, that is not ahead of a track that plays from a position on since a time,
-- and behind it by at most what was lost, in nanoseconds.
abbrev pub IsNear : ℕ → ℕ → ℕ → ℕ → ℕ → Type 0
IsNear position start lost now shown =
    (shown * nanos_per_milli ≤ position * nanos_per_milli + (now - start))
    × (position * nanos_per_milli + (now - start) ≤ shown * nanos_per_milli + lost)

-- The calls are one report for each turn, of a track that plays, with a position that is near.
abbrev pub AreBeats :
    ServerPlaybackReportingContext
    → ServerPlaybackTrack
    → ℕ
    → ℕ
    → ℕ
    → ℕ
    → List Turn
    → List ServerCall
    → Type 0
AreBeats context track gap position start lost [] [] = Unit {0}
AreBeats context track gap position start lost (turn ∷ turns) (call ∷ calls) =
    ((shown : ℕ) × (call ≡ report_playback context track shown playing)
      × IsNear position start (lost + nanos_per_milli) turn.updating.elapsed_at shown)
    × AreBeats context track gap position start (lost + loss gap) turns calls
AreBeats _ _ _ _ _ _ _ _ = ⊥

-- A session that plays from a position on, since a time.
abbrev PlaysFrom : ℕ → ℕ → ℕ → ActiveReportPlaybackSession → Type 0
PlaysFrom position start lost session =
    (session.state ≡ playing)
    × (start ≤ session.position_updated_at)
    × IsNear position start lost session.position_updated_at session.position_ms

-- The session behind a heartbeat.
abbrev beaten : ℕ → ℕ → ActiveReportPlaybackSession → ActiveReportPlaybackSession
beaten position now session = record session { position_ms = position; position_updated_at = now }

abbrev with_session : Worker → Option ActiveReportPlaybackSession → Worker
with_session worker active = record worker { active_report_playback = active }

step_beats :
    (turn : Turn) (session : ActiveReportPlaybackSession) (worker : Worker)
    → session.state ≡ playing
    → let shown =
        saturating_add_u64 session.position_ms
          (elapsed_ms turn.updating.elapsed_at session.position_updated_at) in
      step turn timeout (with_session worker (some session)) ≡ (
        report_playback session.context session.track shown playing ∷ [],
        with_session worker (some (beaten shown turn.updating.set_at session)),
      )
unfolding step heartbeat_position_ms
step_beats turn session worker plays =
    let playing_now = ap is_playing plays in
    let shown =
      saturating_add_u64 session.position_ms
        (elapsed_ms turn.updating.elapsed_at session.position_updated_at) in
    let sent : ℕ → List ServerCall × Worker = λ p. (
      report_playback session.context session.track p playing ∷ [],
      with_session worker (some (beaten p turn.updating.set_at session)),
    ) in
    either_branch (λ (out : List ServerCall × Worker). out ≡ sent shown)
      (not (is_playing session.state)) (λ e. cc)
      (λ _.
        either_branch (λ (p : ℕ). sent p ≡ sent shown) (not (is_playing session.state)) (λ e. cc)
          (λ _. refl))

module _ (gap position start lost : ℕ) (turn : Turn) (session : ActiveReportPlaybackSession)
    (plays : PlaysFrom position start lost session)
    (read : AreRead session.position_updated_at gap turn.updating)
    (bound : position * nanos_per_milli + (turn.updating.elapsed_at - start) < u64_mod) where
  abbrev shown_at : ℕ
  shown_at =
      saturating_add_u64 session.position_ms
        (elapsed_ms turn.updating.elapsed_at session.position_updated_at)

  shown_at-IsNear : IsNear position start (lost + nanos_per_milli) turn.updating.elapsed_at shown_at
  shown_at-IsNear =
      (omega (arith, plays, read.is_later, bound), omega (arith, plays, read.is_later, bound))

  beaten-PlaysFrom :
      PlaysFrom position start (lost + loss gap) (beaten shown_at turn.updating.set_at session)
  beaten-PlaysFrom =
      let near = shown_at-IsNear in
      (
        plays.0,
        omega (arith, plays.1, read.is_later, read.is_ordered),
        (
          omega (arith, near.0, read.is_ordered),
          omega (arith, near.1, plays.1, read.is_later, read.is_quick),
        ),
      )

heartbeats :
    (gap position start lost : ℕ) (turns : List Turn) (session : ActiveReportPlaybackSession)
    (worker : Worker)
    → PlaysFrom position start lost session
    → IsClock gap position start session.position_updated_at turns
    → AreBeats session.context session.track gap position start lost turns
        (work (timeouts turns) (with_session worker (some session))).0
unfolding work
heartbeats gap position start lost [] session worker plays clock = tt
heartbeats gap position start lost (turn ∷ turns) session worker plays clock =
    let shown = shown_at gap position start lost turn session plays clock.0 clock.1 in
    let near = shown_at-IsNear gap position start lost turn session plays clock.0 clock.1 in
    let session' = beaten shown turn.updating.set_at session in
    let plays' = beaten-PlaysFrom gap position start lost turn session plays clock.0 clock.1 in
    subst
      (λ (out : List ServerCall × Worker).
        AreBeats session.context session.track gap position start lost (turn ∷ turns)
          (out.0 ++ (work (timeouts turns) out.1).0))
      (sym (step_beats turn session worker plays.0))
      (
        (shown, refl, near),
        heartbeats gap position start (lost + loss gap) turns session' worker plays' clock.2,
      )

-- While a session plays and no command comes, every time-out sends one heartbeat. Its position is never
-- ahead of the position that the session started with plus the time since its start; and it is behind
-- that by at most a millisecond, and one more with a gap for each heartbeat before it. The clock does not
-- run back, its readings of one turn are at most the gap apart, and the positions in nanoseconds fit 64
-- bits.
pub work-heartbeats :
    (gap : ℕ) (turns : List Turn) (session : ActiveReportPlaybackSession) (worker : Worker)
    → worker.active_report_playback ≡ some session
    → session.state ≡ playing
    → IsClock gap session.position_ms session.position_updated_at session.position_updated_at turns
    → AreBeats session.context session.track gap session.position_ms session.position_updated_at 0
        turns
        (work (timeouts turns) worker).0
work-heartbeats gap turns session worker active plays clock =
    let start = session.position_updated_at in
    let from_start : PlaysFrom session.position_ms start 0 session =
      (plays, omega arith, (omega arith, omega arith)) in
    let beats = AreBeats session.context session.track gap session.position_ms start 0 turns in
    subst (λ o. beats (work (timeouts turns) (with_session worker o)).0) (sym active)
      (heartbeats gap session.position_ms start 0 turns session worker from_start clock)

-- At most one kind of session is open.
abbrev pub OneKind : Worker → Type 0
OneKind worker = (worker.active_report_playback ≡ none) ⊎ (worker.active_fallback_scrobble ≡ none)

timeout-OneKind :
    (turn : Turn) (active : Option ActiveReportPlaybackSession)
    (fallback : Option ActiveFallbackScrobbleSession)
    → (active ≡ none) ⊎ (fallback ≡ none)
    → OneKind
        (step turn timeout
          (record { active_report_playback = active; active_fallback_scrobble = fallback })).1
unfolding step
timeout-OneKind turn none fallback one = one
timeout-OneKind turn (some session) fallback (inl e) = cc
timeout-OneKind turn (some session) fallback (inr e) =
    either_branch (λ (out : List ServerCall × Worker). OneKind out.1)
      (not (is_playing session.state)) (λ _. inr e) (λ _. inr e)

step-OneKind :
    (turn : Turn) (received : Received) (worker : Worker)
    → OneKind worker
    → OneKind (step turn received worker).1
unfolding step
step-OneKind turn (command clear) worker one = inl refl
step-OneKind turn (command (report r)) worker one =
    either_branch (λ (out : List ServerCall × Worker). OneKind out.1) r.playback_report
      (λ _. inr refl) (λ _. inl refl)
step-OneKind turn timeout worker one =
    timeout-OneKind turn worker.active_report_playback worker.active_fallback_scrobble one

next_timeout-bound :
    (now : ℕ) (session : ActiveReportPlaybackSession) → next_timeout now session ≤ idle_timeout
unfolding next_timeout
next_timeout-bound now session =
    either_branch (λ w. w ≤ idle_timeout) (not (is_playing session.state)) (λ _. omega arith)
      λ _.
        either_branch (λ w. w ≤ idle_timeout)
          (leb heartbeat_interval (now - session.position_updated_at)) (λ _. omega arith)
          (λ _. omega arith)

wait-bound : (now : ℕ) (worker : Worker) → wait now worker ≤ idle_timeout
unfolding wait
wait-bound now worker =
    option_branch (λ w. w ≤ idle_timeout) worker.active_report_playback (omega arith)
      (next_timeout-bound now)

work-keeps :
    (events : List (Turn × Received)) (worker : Worker)
    → OneKind worker
    → OneKind (work events worker).1
unfolding work
work-keeps [] worker one = one
work-keeps ((turn, received) ∷ events) worker one =
    work-keeps events (step turn received worker).1 (step-OneKind turn received worker one)

-- Whatever commands and time-outs the loop has handled since it started: at most one kind of session is
-- open, and the loop waits an hour at most.
pub work-OneKind :
    (events : List (Turn × Received)) (now : ℕ)
    → let worker = (work events idle_worker).1 in OneKind worker × (wait now worker ≤ idle_timeout)
work-OneKind events now =
    let worker = (work events idle_worker).1 in
    (work-keeps events idle_worker (inl refl), wait-bound now worker)
