-- ===== src/Reporting/Scrobbles/Track.antt =====
-- A report of the track that is open already (src-tauri/src/playback/server_reporting.rs).
use transonic.Prelude.{
  either_branch, ℕ, ◌+◌, arith, Bool, true, false, not, ◌&&◌, ◌≡◌, refl, ap, sym, ◌∙◌, subst,
  Option, none, some, List, [], ◌∷◌, ◌++◌, str_eq, eq_iff, ==_iff,
}
use transonic.Controller.State.{
  ServerPlaybackState, starting, playing, paused, stopped, ServerReport,
}
use transonic.Reporting.Sessions.{
  is_playing, Readings, FallbackTrackKey, ActiveFallbackScrobbleSession, ServerCall,
  report_playback, now_playing, played, fallback_track_key, index_eq, key_eq, session_key,
  refresh_progress, update_session, new_fallback_session, should_submit_fallback_scrobble,
  submit_fallback_scrobble_if_ready,
}
use transonic.Reporting.Worker.{
  Turn, reporting_context, leave_other_track, enter_track, report_now_playing, follow_state,
  handle_fallback_report,
}

abbrev pub count_played : List ServerCall → ℕ
count_played [] = 0
count_played (report_playback context track position_ms state ∷ calls) = count_played calls
count_played (now_playing context track ∷ calls) = count_played calls
count_played (played context track ∷ calls) = 1 + count_played calls

pub count_played-append :
    (calls later : List ServerCall)
    → count_played (calls ++ later) ≡ count_played calls + count_played later
count_played-append [] later = omega arith
count_played-append (report_playback context track position_ms state ∷ calls) later =
    count_played-append calls later
count_played-append (now_playing context track ∷ calls) later = count_played-append calls later
count_played-append (played context track ∷ calls) later =
    omega (arith, count_played-append calls later)

abbrev pub unspent : Bool → ℕ
unspent true = 0
unspent false = 1

-- How many scrobbles the session may still send.
abbrev pub pending : Option ActiveFallbackScrobbleSession → ℕ
pending none = 1
pending (some session) = unspent session.played_scrobbled

-- The session is of the track.
abbrev pub AtTrack : FallbackTrackKey → Option ActiveFallbackScrobbleSession → Type 0
AtTrack key none = Unit {0}
AtTrack key (some session) = session_key session ≡ key

-- What a progress leaves alone.
abbrev SameTrack : ActiveFallbackScrobbleSession → ActiveFallbackScrobbleSession → Type 0
SameTrack before after =
    (session_key after ≡ session_key before) × (after.played_scrobbled ≡ before.played_scrobbled)

refresh_progress-SameTrack :
    (readings : Readings) (session : ActiveFallbackScrobbleSession)
    → SameTrack session (refresh_progress readings session)
unfolding refresh_progress session_key
refresh_progress-SameTrack readings session =
    either_branch
      (λ (r : ActiveFallbackScrobbleSession).
        SameTrack session (record r { position_updated_at = readings.set_at }))
      (is_playing session.state) (λ _. (refl, refl)) (λ _. (refl, refl))

not_yet : (already : Bool) (b : Bool) → (not already && b) ≡ true → already ≡ false
not_yet false b h = refl
not_yet true b h = cc

-- A submission spends what it sends.
abbrev Spends :
    ActiveFallbackScrobbleSession → List ServerCall × ActiveFallbackScrobbleSession → Type 0
Spends before out =
    (count_played out.0 + unspent out.1.played_scrobbled ≡ unspent before.played_scrobbled)
    × (session_key out.1 ≡ session_key before)

submit-Spends :
    (readings : Readings) (session : ActiveFallbackScrobbleSession)
    → Spends session (submit_fallback_scrobble_if_ready readings session)
unfolding submit_fallback_scrobble_if_ready should_submit_fallback_scrobble session_key
submit-Spends readings session =
    let refreshed = refresh_progress readings session in
    let same = refresh_progress-SameTrack readings session in
    either_branch (Spends session)
      (should_submit_fallback_scrobble refreshed.played_ms refreshed.track.duration_ms
        refreshed.played_scrobbled)
      (λ ready.
        (sym (ap unspent (sym same.1 ∙ not_yet refreshed.played_scrobbled _ ready)), same.0))
      (λ _. (omega (arith, ap unspent same.1), same.0))

-- A report of a track that goes on.
abbrev pub GoesOn : ServerPlaybackState → Type 0
GoesOn stopped = ⊥
GoesOn _ = Unit {0}

-- What a report of the same track comes to.
abbrev pub SpendsAt :
    FallbackTrackKey → ℕ → List ServerCall × Option ActiveFallbackScrobbleSession → Type 0
SpendsAt key before out = (count_played out.0 + pending out.1 ≡ before) × AtTrack key out.1

announced-Spends :
    (session : ActiveFallbackScrobbleSession) → Spends session (report_now_playing session)
unfolding report_now_playing session_key
announced-Spends session =
    either_branch (Spends session) session.now_playing_reported (λ _. (omega arith, refl))
      (λ _. (omega arith, refl))

follow_state-SpendsAt :
    (readings : Readings) (state : ServerPlaybackState) (session : ActiveFallbackScrobbleSession)
    → GoesOn state
    → SpendsAt
        (session_key session)
        (unspent session.played_scrobbled)
        (follow_state readings state session)
unfolding follow_state
follow_state-SpendsAt readings starting session on = (omega arith, refl)
follow_state-SpendsAt readings stopped session on = absurd on
follow_state-SpendsAt readings paused session on = submit-Spends readings session
follow_state-SpendsAt readings playing session on =
    let (announced, reported) = report_now_playing session in
    let first = announced-Spends session in
    let then_submits = submit-Spends readings reported in
    (
      omega (
        arith,
        first.0,
        then_submits.0,
        count_played-append announced (submit_fallback_scrobble_if_ready readings reported).0,
      ),
      then_submits.1 ∙ first.1,
    )

update_session-SameTrack :
    (readings : Readings) (position_ms : ℕ) (state : ServerPlaybackState)
    (session : ActiveFallbackScrobbleSession)
    → SameTrack session (update_session readings position_ms state session)
unfolding update_session session_key
update_session-SameTrack readings position_ms state session =
    refresh_progress-SameTrack readings session

index_eq_refl : (o : Option ℕ) → index_eq o o ≡ true
index_eq_refl none = refl
index_eq_refl (some n) = (==_iff n n).1 refl

key_eq_refl : (key : FallbackTrackKey) → key_eq key key ≡ true
key_eq_refl key =
    let profile = (eq_iff key.profile_id key.profile_id).1 refl in
    let song = (eq_iff key.song_id key.song_id).1 refl in
    ap (λ b. b && str_eq key.song_id key.song_id && index_eq key.queue_index key.queue_index)
      profile
    ∙ ap (λ b. b && index_eq key.queue_index key.queue_index) song
    ∙ index_eq_refl key.queue_index

-- The key of a report.
abbrev pub report_key : ServerReport → FallbackTrackKey
report_key r = fallback_track_key (reporting_context r) r.track

pub stays_on_track :
    (readings : Readings) (r : ServerReport) (session : ActiveFallbackScrobbleSession)
    → session_key session ≡ report_key r
    → leave_other_track readings r (some session) ≡ ([], some session)
unfolding leave_other_track
stays_on_track readings r session same =
    let equal = ap (λ key. key_eq key (report_key r)) same ∙ key_eq_refl (report_key r) in
    either_branch
      (λ (out : List ServerCall × Option ActiveFallbackScrobbleSession). out ≡ ([], some session))
      (key_eq (session_key session) (report_key r)) (λ _. refl) (λ other. cc)

abbrev pub continued :
    Turn
    → ServerReport
    → List ServerCall × Option ActiveFallbackScrobbleSession
    → List ServerCall × Option ActiveFallbackScrobbleSession
continued turn r left =
    let (calls, session) =
      follow_state turn.submitting r.state (enter_track turn.updating r left.1) in
    (left.0 ++ calls, session)

updated-SpendsAt :
    (turn : Turn) (r : ServerReport) (session : ActiveFallbackScrobbleSession)
    → GoesOn r.state
    → session_key session ≡ report_key r
    → SpendsAt
        (report_key r)
        (unspent session.played_scrobbled)
        (continued turn r ([], some session))
unfolding enter_track
updated-SpendsAt turn r session on at =
    let updated = update_session turn.updating r.position_ms r.state session in
    let same = update_session-SameTrack turn.updating r.position_ms r.state session in
    let spends = follow_state-SpendsAt turn.submitting r.state updated on in
    subst
      (λ key.
        SpendsAt key (unspent session.played_scrobbled)
          (follow_state turn.submitting r.state updated))
      (same.0 ∙ at) (spends.0 ∙ ap unspent same.1, spends.1)

pub handle-SpendsAt :
    (turn : Turn) (r : ServerReport) (active : Option ActiveFallbackScrobbleSession)
    → GoesOn r.state
    → AtTrack (report_key r) active
    → SpendsAt (report_key r) (pending active) (handle_fallback_report turn r active)
unfolding handle_fallback_report enter_track leave_other_track new_fallback_session
handle-SpendsAt turn r none on at =
    follow_state-SpendsAt turn.submitting r.state (enter_track turn.updating r none) on
handle-SpendsAt turn r (some session) on at =
    subst
      (λ left. SpendsAt (report_key r) (unspent session.played_scrobbled) (continued turn r left))
      (sym (stays_on_track turn.leaving r session at)) (updated-SpendsAt turn r session on at)
