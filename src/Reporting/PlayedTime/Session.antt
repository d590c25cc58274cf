-- ===== src/Reporting/PlayedTime/Session.antt =====
-- What a session has heard, and when it submits its scrobble (src-tauri/src/playback/server_reporting.rs).
use transonic.Prelude.{
  either_branch, ℕ, ◌+◌, ◌-◌, ◌*◌, ◌≤◌, ◌<◌, arith, Bool, true, false, not, ◌&&◌, ◌≡◌, refl, ap,
  sym, ◌∙◌, Option, some, List, if◌then◌else◌, leb, leb→le, u64_mod,
}
use transonic.Controller.State.{ServerPlaybackState, starting, playing, paused, stopped}
use transonic.Reporting.Sessions.{
  nanos_per_milli, is_playing, elapsed_ms, Readings, progressed, FallbackTrackKey,
  ActiveFallbackScrobbleSession, ServerCall, session_key, refresh_progress, update_session,
  fallback_scrobble_threshold_ms, should_submit_fallback_scrobble,
  submit_fallback_scrobble_if_ready,
}
use transonic.Reporting.Clock.{AreRead, loss}
use transonic.Reporting.Worker.{report_now_playing, follow_state}
use transonic.Reporting.Scrobbles.Track.{GoesOn}

-- The time heard since a time, in a state.
abbrev pub heard : ServerPlaybackState → ℕ → ℕ → ℕ
heard state since now = if is_playing state then now - since else 0

-- What a session has come to: its track, and the milliseconds that it counts of the time heard, which
-- are never too many, and too few by at most what was lost. It has been scrobbled only if those reach
-- the threshold.
pub record Heard (key : FallbackTrackKey) (duration_ms : Option ℕ) (total lost since : ℕ)
    (state : ServerPlaybackState) (session : ActiveFallbackScrobbleSession) : Type 0 where
  pub has_key : session_key session ≡ key
  pub has_duration : session.track.duration_ms ≡ duration_ms
  pub is_heard : session.played_ms * nanos_per_milli ≤ total
  pub is_counted : total ≤ session.played_ms * nanos_per_milli + lost
  pub has_since : is_playing state ≡ true → session.position_updated_at ≡ since
  pub has_state : session.state ≡ state
  pub is_due :
      session.played_scrobbled ≡ true
      → fallback_scrobble_threshold_ms duration_ms ≤ session.played_ms

heard_in :
    (state : ServerPlaybackState) (since now : ℕ) (b : Bool)
    → is_playing state ≡ b
    → heard state since now ≡ (if b then now - since else 0)
heard_in state since now b e = ap (λ b. if b then now - since else 0) e

module _ (key : FallbackTrackKey) (duration_ms : Option ℕ) (total lost since gap : ℕ)
    (state : ServerPlaybackState) (session : ActiveFallbackScrobbleSession) (readings : Readings)
    (h : Heard key duration_ms total lost since state session) (read : AreRead since gap readings)
    (bound : total + heard state since readings.set_at < u64_mod) where
  abbrev Refreshed : ActiveFallbackScrobbleSession → Type 0
  Refreshed =
      Heard key duration_ms (total + heard state since readings.set_at) (lost + loss gap)
        readings.set_at state

  while_playing :
      is_playing session.state ≡ true
      → Refreshed
          (record (progressed
            (elapsed_ms readings.elapsed_at session.position_updated_at)
            session) { position_updated_at = readings.set_at })
  unfolding session_key
  while_playing e =
      let on = sym (ap is_playing h.has_state) ∙ e in
      let gone = heard_in state since readings.set_at true on in
      let from = h.has_since on in
      record {
        has_key = h.has_key;
        has_duration = h.has_duration;
        is_heard = omega (arith, h.is_heard, from, read.is_later, read.is_ordered, bound, gone);
        is_counted = omega (
          arith, h.is_heard, h.is_counted, from, read.is_later, read.is_ordered, read.is_quick,
          bound, gone,
        );
        has_since = λ _. refl;
        has_state = h.has_state;
        is_due = λ scrobbled. omega (arith, h.is_due scrobbled, h.is_heard, bound);
      }

  while_silent :
      is_playing session.state ≡ false
      → Refreshed (record session { position_updated_at = readings.set_at })
  unfolding session_key
  while_silent e =
      let gone = heard_in state since readings.set_at false (sym (ap is_playing h.has_state) ∙ e) in
      record {
        has_key = h.has_key;
        has_duration = h.has_duration;
        is_heard = omega (arith, h.is_heard, gone);
        is_counted = omega (arith, h.is_counted, gone);
        has_since = λ _. refl;
        has_state = h.has_state;
        is_due = h.is_due;
      }

  refresh_progress-Heard : Refreshed (refresh_progress readings session)
  unfolding refresh_progress
  refresh_progress-Heard =
      either_branch
        (λ (r : ActiveFallbackScrobbleSession).
          Refreshed (record r { position_updated_at = readings.set_at }))
        (is_playing session.state) while_playing while_silent

  pub update_session-Heard :
      (position_ms : ℕ) (next : ServerPlaybackState)
      → Heard key duration_ms
          (total + heard state since readings.set_at)
          (lost + loss gap)
          readings.set_at
          next
          (update_session readings position_ms next session)
  unfolding update_session session_key refresh_progress
  update_session-Heard position_ms next =
      let r = refresh_progress-Heard in
      record {
        has_key = r.has_key;
        has_duration = r.has_duration;
        is_heard = r.is_heard;
        is_counted = r.is_counted;
        has_since = λ _. refl;
        has_state = refl;
        is_due = r.is_due;
      }

-- The session has heard as before, and it is scrobbled exactly if what it counts reaches the threshold.
abbrev Settled :
    FallbackTrackKey
    → Option ℕ
    → ℕ
    → ℕ
    → ℕ
    → ServerPlaybackState
    → ActiveFallbackScrobbleSession
    → Type 0
Settled key duration_ms total lost since state session =
    Heard key duration_ms total lost since state session
    × (session.played_scrobbled
        ≡ leb (fallback_scrobble_threshold_ms duration_ms) session.played_ms)

and_second : (a b : Bool) → (a && b) ≡ true → b ≡ true
and_second true b e = e
and_second false b e = cc

le→leb : (a b : ℕ) → a ≤ b → leb a b ≡ true
le→leb a b h = ground arith

settled_flag :
    (flag : Bool) (threshold count : ℕ)
    → (flag ≡ true → threshold ≤ count)
    → (not flag && leb threshold count) ≡ false
    → flag ≡ leb threshold count
settled_flag true threshold count due e = sym (le→leb threshold count (due refl))
settled_flag false threshold count due e = sym e

module _ (key : FallbackTrackKey) (duration_ms : Option ℕ) (total lost since : ℕ)
    (state : ServerPlaybackState) (session : ActiveFallbackScrobbleSession)
    (h : Heard key duration_ms total lost since state session) where
  scrobbled-Settled :
      leb (fallback_scrobble_threshold_ms duration_ms) session.played_ms ≡ true
      → Settled key duration_ms total lost since state (record session { played_scrobbled = true })
  unfolding session_key
  scrobbled-Settled reached = (
    record {
      has_key = h.has_key;
      has_duration = h.has_duration;
      is_heard = h.is_heard;
      is_counted = h.is_counted;
      has_since = h.has_since;
      has_state = h.has_state;
      is_due = λ _. leb→le (fallback_scrobble_threshold_ms duration_ms) session.played_ms reached;
    },
    sym reached,
  )

  announced-Heard : Heard key duration_ms total lost since state (report_now_playing session).1
  unfolding report_now_playing session_key
  announced-Heard =
      either_branch
        (λ (out : List ServerCall × ActiveFallbackScrobbleSession).
          Heard key duration_ms total lost since state out.1)
        session.now_playing_reported (λ _. h)
        (λ _. record {
          has_key = h.has_key;
          has_duration = h.has_duration;
          is_heard = h.is_heard;
          is_counted = h.is_counted;
          has_since = h.has_since;
          has_state = h.has_state;
          is_due = h.is_due;
        })

-- What holds in the states that may submit a scrobble.
abbrev pub IfSubmits : ServerPlaybackState → Type 0 → Type 0
IfSubmits playing P = P
IfSubmits paused P = P
IfSubmits _ P = Unit {0}

module _ (key : FallbackTrackKey) (duration_ms : Option ℕ) (total lost since gap : ℕ)
    (state : ServerPlaybackState) (session : ActiveFallbackScrobbleSession) (readings : Readings)
    (h : Heard key duration_ms total lost since state session) (read : AreRead since gap readings)
    (bound : total + heard state since readings.set_at < u64_mod) where
  submit-Settled :
      Settled key duration_ms
        (total + heard state since readings.set_at)
        (lost + loss gap)
        readings.set_at
        state
        (submit_fallback_scrobble_if_ready readings session).1
  unfolding submit_fallback_scrobble_if_ready should_submit_fallback_scrobble
  submit-Settled =
      let refreshed = refresh_progress readings session in
      let total' = total + heard state since readings.set_at in
      let lost' = lost + loss gap in
      let r =
        refresh_progress-Heard key duration_ms total lost since gap state session readings h read
          bound in
      let same =
        ap
          (λ d.
            not refreshed.played_scrobbled
            && leb (fallback_scrobble_threshold_ms d) refreshed.played_ms)
          r.has_duration in
      either_branch
        (λ (out : List ServerCall × ActiveFallbackScrobbleSession).
          Settled key duration_ms total' lost' readings.set_at state out.1)
        (should_submit_fallback_scrobble refreshed.played_ms refreshed.track.duration_ms
          refreshed.played_scrobbled)
        (λ e.
          scrobbled-Settled key duration_ms total' lost' readings.set_at state refreshed r
            (and_second _ _ (sym same ∙ e)))
        (λ e. (r, settled_flag refreshed.played_scrobbled _ _ r.is_due (sym same ∙ e)))

-- A report of the track that goes on.
pub follow_state-Heard :
    (key : FallbackTrackKey) (duration_ms : Option ℕ) (total lost since gap : ℕ)
    (state : ServerPlaybackState) (session : ActiveFallbackScrobbleSession) (readings : Readings)
    → GoesOn state
    → Heard key duration_ms total lost since state session
    → AreRead since gap readings
    → total + heard state since readings.set_at < u64_mod
    → (after : ActiveFallbackScrobbleSession) × ((follow_state readings state session).1
        ≡ some after)
      × Heard key duration_ms
          (total + heard state since readings.set_at)
          (lost + loss gap)
          readings.set_at
          state
          after
      × IfSubmits state (
          after.played_scrobbled ≡ leb (fallback_scrobble_threshold_ms duration_ms) after.played_ms)
unfolding follow_state
follow_state-Heard key duration_ms total lost since gap stopped session readings on h read bound =
    absurd on
follow_state-Heard key duration_ms total lost since gap starting session readings on h read bound =
    (
      session,
      refl,
      record {
        has_key = h.has_key;
        has_duration = h.has_duration;
        is_heard = omega (arith, h.is_heard);
        is_counted = omega (arith, h.is_counted);
        has_since = λ e. cc;
        has_state = h.has_state;
        is_due = h.is_due;
      },
      tt,
    )
follow_state-Heard key duration_ms total lost since gap paused session readings on h read bound =
    let settled =
      submit-Settled key duration_ms total lost since gap paused session readings h read bound in
    (_, refl, settled.0, settled.1)
follow_state-Heard key duration_ms total lost since gap playing session readings on h read bound =
    let announced = (report_now_playing session).1 in
    let settled =
      submit-Settled key duration_ms total lost since gap playing announced readings
        (announced-Heard key duration_ms total lost since playing session h) read bound in
    (_, refl, settled.0, settled.1)
