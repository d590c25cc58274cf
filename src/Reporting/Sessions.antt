-- ===== src/Reporting/Sessions.antt =====
-- The two kinds of reporting session: `reportPlayback` of the server, and scrobbles where the server
-- lacks it (src-tauri/src/playback/server_reporting.rs).
use transonic.Prelude.{
  ℕ, ◌-◌, ◌/◌, ◌%◌, min, String, Bool, true, false, not, ◌&&◌, Option, none, some, List, [], ◌∷◌,
  ltb, leb, ◌==◌, str_eq, if◌then◌else◌, u64_mod, saturating_add_u64,
}
use transonic.Controller.State.{ServerPlaybackState, playing, ServerPlaybackTrack}

-- A time and a duration are nanoseconds.
abbrev pub nanos_per_milli : ℕ
nanos_per_milli = 1000000

-- 15 seconds.
abbrev pub heartbeat_interval : ℕ
heartbeat_interval = 15000000000

-- An hour.
abbrev pub idle_timeout : ℕ
idle_timeout = 3600000000000

abbrev pub fallback_scrobble_max_threshold_ms : ℕ
fallback_scrobble_max_threshold_ms = 240000

abbrev pub fallback_scrobble_unknown_duration_threshold_ms : ℕ
fallback_scrobble_unknown_duration_threshold_ms = 30000

-- `state == ServerPlaybackState::Playing`.
abbrev pub is_playing : ServerPlaybackState → Bool
is_playing playing = true
is_playing _ = false

-- The context, without its client.
pub record ServerPlaybackReportingContext : Type 0 where
  pub profile_id : String
  pub playback_report : Bool

pub record FallbackTrackKey : Type 0 where
  pub profile_id : String
  pub song_id : String
  pub queue_index : Option ℕ

pub record ActiveReportPlaybackSession : Type 0 where
  pub context : ServerPlaybackReportingContext
  pub track : ServerPlaybackTrack
  pub state : ServerPlaybackState
  pub position_ms : ℕ
  pub position_updated_at : ℕ

pub record ActiveFallbackScrobbleSession : Type 0 where
  pub context : ServerPlaybackReportingContext
  pub track : ServerPlaybackTrack
  pub state : ServerPlaybackState
  pub position_ms : ℕ
  pub position_updated_at : ℕ
  pub played_ms : ℕ
  pub now_playing_reported : Bool
  pub played_scrobbled : Bool

-- The requests to the server.
pub data ServerCall : Type 0 where
  report_playback :
      ServerPlaybackReportingContext → ServerPlaybackTrack → ℕ → ServerPlaybackState → ServerCall
  now_playing played : ServerPlaybackReportingContext → ServerPlaybackTrack → ServerCall

-- `instant.elapsed().as_millis() as u64`, where the clock, which never runs back, shows `now`.
abbrev pub elapsed_ms : ℕ → ℕ → ℕ
elapsed_ms now instant = ((now - instant) / nanos_per_milli) % u64_mod

-- What the clock shows to `elapsed()`, and to the `Instant::now()` behind it.
pub record Readings : Type 0 where
  pub elapsed_at : ℕ
  pub set_at : ℕ

-- `ActiveReportPlaybackSession::new`.
unfoldable pub new_report_session :
    ℕ
    → ServerPlaybackReportingContext
    → ServerPlaybackTrack
    → ℕ
    → ServerPlaybackState
    → ActiveReportPlaybackSession
new_report_session now context track position_ms state = record {
  context = context;
  track = track;
  state = state;
  position_ms = position_ms;
  position_updated_at = now;
}

unfoldable pub next_timeout : ℕ → ActiveReportPlaybackSession → ℕ
next_timeout now session =
    if not (is_playing session.state)
    then idle_timeout
    else if leb heartbeat_interval (now - session.position_updated_at)
    then 0
    else heartbeat_interval - (now - session.position_updated_at)

unfoldable pub heartbeat_position_ms : ℕ → ActiveReportPlaybackSession → ℕ
heartbeat_position_ms now session =
    if not (is_playing session.state)
    then session.position_ms
    else saturating_add_u64 session.position_ms (elapsed_ms now session.position_updated_at)

-- `ActiveFallbackScrobbleSession::new`.
unfoldable pub new_fallback_session :
    ℕ
    → ServerPlaybackReportingContext
    → ServerPlaybackTrack
    → ℕ
    → ServerPlaybackState
    → ActiveFallbackScrobbleSession
new_fallback_session now context track position_ms state = record {
  context = context;
  track = track;
  state = state;
  position_ms = position_ms;
  position_updated_at = now;
  played_ms = 0;
  now_playing_reported = false;
  played_scrobbled = false;
}

unfoldable pub fallback_track_key :
    ServerPlaybackReportingContext → ServerPlaybackTrack → FallbackTrackKey
fallback_track_key context track = record {
  profile_id = context.profile_id;
  song_id = track.song_id;
  queue_index = track.queue_index;
}

abbrev pub index_eq : Option ℕ → Option ℕ → Bool
index_eq none none = true
index_eq (some a) (some b) = a == b
index_eq _ _ = false

-- The derived `==` of the keys.
abbrev pub key_eq : FallbackTrackKey → FallbackTrackKey → Bool
key_eq a b =
    str_eq a.profile_id b.profile_id
    && str_eq a.song_id b.song_id
    && index_eq a.queue_index b.queue_index

unfoldable pub session_key : ActiveFallbackScrobbleSession → FallbackTrackKey
unfolding fallback_track_key
session_key session = fallback_track_key session.context session.track

abbrev pub progressed : ℕ → ActiveFallbackScrobbleSession → ActiveFallbackScrobbleSession
progressed elapsed session = record session {
  played_ms = saturating_add_u64 session.played_ms elapsed;
  position_ms = saturating_add_u64 session.position_ms elapsed;
}

unfoldable pub refresh_progress :
    Readings → ActiveFallbackScrobbleSession → ActiveFallbackScrobbleSession
refresh_progress readings session =
    let refreshed =
      if is_playing session.state
      then progressed (elapsed_ms readings.elapsed_at session.position_updated_at) session
      else session in
    record refreshed { position_updated_at = readings.set_at }

-- `ActiveFallbackScrobbleSession::update`.
unfoldable pub update_session :
    Readings
    → ℕ
    → ServerPlaybackState
    → ActiveFallbackScrobbleSession
    → ActiveFallbackScrobbleSession
unfolding refresh_progress
update_session readings position_ms state session = record (refresh_progress readings session) {
  position_ms = position_ms;
  state = state;
}

unfoldable pub fallback_scrobble_threshold_ms : Option ℕ → ℕ
fallback_scrobble_threshold_ms none = fallback_scrobble_unknown_duration_threshold_ms
fallback_scrobble_threshold_ms (some duration_ms) =
    if ltb 0 duration_ms
    then min (duration_ms / 2) fallback_scrobble_max_threshold_ms
    else fallback_scrobble_unknown_duration_threshold_ms

unfoldable pub should_submit_fallback_scrobble : ℕ → Option ℕ → Bool → Bool
unfolding fallback_scrobble_threshold_ms
should_submit_fallback_scrobble played_ms duration_ms already_scrobbled =
    not already_scrobbled && leb (fallback_scrobble_threshold_ms duration_ms) played_ms

-- `submit_fallback_scrobble_if_ready`, with `should_submit_played_scrobble` of the session.
unfoldable pub submit_fallback_scrobble_if_ready :
    Readings → ActiveFallbackScrobbleSession → List ServerCall × ActiveFallbackScrobbleSession
unfolding refresh_progress should_submit_fallback_scrobble
submit_fallback_scrobble_if_ready readings session =
    let refreshed = refresh_progress readings session in
    if should_submit_fallback_scrobble refreshed.played_ms refreshed.track.duration_ms
      refreshed.played_scrobbled
    then (
      played refreshed.context refreshed.track ∷ [],
      record refreshed { played_scrobbled = true },
    )
    else ([], refreshed)

unfoldable pub finalize_fallback_scrobble :
    Readings → Option ActiveFallbackScrobbleSession → List ServerCall
unfolding submit_fallback_scrobble_if_ready
finalize_fallback_scrobble readings none = []
finalize_fallback_scrobble readings (some session) =
    (submit_fallback_scrobble_if_ready readings session).0
