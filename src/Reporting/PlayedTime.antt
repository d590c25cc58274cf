-- ===== src/Reporting/PlayedTime.antt =====
-- The time that a track was heard for, and its scrobble (src-tauri/src/playback/server_reporting.rs).
mod Session
use transonic.Prelude.{
  ℕ, ◌+◌, ◌-◌, ◌*◌, ◌/◌, ◌%◌, ◌≤◌, ◌<◌, min, arith, Bool, true, false, not, ◌&&◌, ◌≡◌, ◌↔◌, Option,
  some, List, [], ◌∷◌, ◌++◌, if◌then◌else◌, leb, ltb, leb→le,
}
use transonic.Controller.State.{ServerPlaybackState, starting, playing, paused, ServerReport}
use transonic.Reporting.Sessions.{
  nanos_per_milli, is_playing, Readings, FallbackTrackKey, ActiveFallbackScrobbleSession,
  fallback_scrobble_threshold_ms,
}
use transonic.Reporting.Worker.{Received, command, report, Turn, Worker, follow_state}
use transonic.Reporting.Scrobbles.Track.{GoesOn, report_key}
use transonic.Reporting.Clock.{AreRead, loss}
use transonic.Reporting.PlayedTime.Session.{heard, Heard, IfSubmits}

-- The readings of a turn, behind a time.
pub record AreTurned (since gap : ℕ) (turn : Turn) : Type 0 where
  pub are_updated : AreRead since gap turn.updating
  pub are_submitted : AreRead turn.updating.set_at gap turn.submitting

-- The time in `Playing` of a turn: in the state before it until its report is taken in, and in the
-- state that it reports until its end.
abbrev pub heard_in_turn : ServerPlaybackState → ℕ → Turn → ServerReport → ℕ
heard_in_turn state since turn r =
    heard state since turn.updating.set_at
    + heard r.state turn.updating.set_at turn.submitting.set_at

-- What the progresses of a turn may lose.
abbrev pub turn_loss : ℕ → ℕ
turn_loss gap = 2 * loss gap

abbrev Follows :
    FallbackTrackKey
    → Option ℕ
    → ℕ
    → ℕ
    → ℕ
    → ServerPlaybackState
    → Option ActiveFallbackScrobbleSession
    → Type 0
Follows key duration_ms total lost since state active =
    (after : ActiveFallbackScrobbleSession) × (active ≡ some after)
    × Heard key duration_ms total lost since state after
    × IfSubmits state
        (after.played_scrobbled ≡ leb (fallback_scrobble_threshold_ms duration_ms) after.played_ms)

abbrev pub commands : List (Turn × ServerReport) → List (Turn × Received)
commands [] = []
commands ((turn, r) ∷ reports) = (turn, command (report r)) ∷ commands reports

-- The time in `Playing` that a sequence of reports describes, from a state and a time on.
abbrev pub playing_time : ServerPlaybackState → ℕ → List (Turn × ServerReport) → ℕ
playing_time state since [] = 0
playing_time state since ((turn, r) ∷ reports) =
    heard_in_turn state since turn r + playing_time r.state turn.submitting.set_at reports

-- Reports of one track, which they do not stop, by a clock that does not run back.
abbrev pub Continue : FallbackTrackKey → ℕ → ℕ → List (Turn × ServerReport) → Type 0
Continue key gap since [] = Unit {0}
Continue key gap since ((turn, r) ∷ reports) =
    (report_key r ≡ key)
    × (r.playback_report ≡ false)
    × GoesOn r.state
    × AreTurned since gap turn
    × Continue key gap turn.submitting.set_at reports

-- The state of the last report.
abbrev pub last_state : ServerPlaybackState → List (Turn × ServerReport) → ServerPlaybackState
last_state state [] = state
last_state state ((turn, r) ∷ reports) = last_state r.state reports

-- The open session counts no more milliseconds than the given time in nanoseconds has, and misses at
-- most the given loss. It is scrobbled only if what it counts reaches the threshold, and in the states that
-- may submit it exactly then.
abbrev pub HasHeard :
    Option ℕ → ℕ → ℕ → ServerPlaybackState → Option ActiveFallbackScrobbleSession → Type 0
HasHeard duration_ms total lost state active =
    (session : ActiveFallbackScrobbleSession) × (active ≡ some session)
    × (session.played_ms * nanos_per_milli ≤ total)
    × (total ≤ session.played_ms * nanos_per_milli + lost)
    × (session.played_scrobbled ≡ true
        → fallback_scrobble_threshold_ms duration_ms ≤ session.played_ms)
    × IfSubmits state (
        session.played_scrobbled
        ≡ leb (fallback_scrobble_threshold_ms duration_ms) session.played_ms)

-- The threshold of a duration that is known, which 0 is not, is at most four minutes and at most half of
-- it; and it is 0 exactly for a duration of one millisecond.
pub fallback_scrobble_threshold_ms-bounds :
    (duration_ms : ℕ)
    → 0 < duration_ms
    → (fallback_scrobble_threshold_ms (some duration_ms) ≤ 240000)
      × (2 * fallback_scrobble_threshold_ms (some duration_ms) ≤ duration_ms)
      × ((fallback_scrobble_threshold_ms (some duration_ms) ≡ 0) ↔ (duration_ms ≡ 1))
unfolding fallback_scrobble_threshold_ms
fallback_scrobble_threshold_ms-bounds duration_ms known = ground arith
