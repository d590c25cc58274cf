-- ===== src/Tests/Reporting.antt =====
-- The theorems on the reporting to the media server, on one track.
use transonic.Prelude.{
  ℕ, ◌+◌, ◌*◌, ◌≤◌, ◌≡◌, ◌↔◌, refl, arith, false, true, none, some, List, [], ◌∷◌,
}
use transonic.Controller.State.{
  ServerPlaybackState, playing, paused, song as media_song, ServerPlaybackTrack, ServerReport,
}
use transonic.Reporting.Sessions.{
  ServerPlaybackReportingContext, ActiveReportPlaybackSession, idle_timeout,
  fallback_scrobble_threshold_ms,
}
use transonic.Reporting.Worker.{
  Received, command, timeout, report, Turn, Worker, idle_worker, work, wait,
}
use transonic.Reporting.Scrobbles.{work-count_played}
use transonic.Reporting.Scrobbles.Track.{count_played, pending, report_key}
use transonic.Reporting.Heartbeats.{
  IsClock, timeouts, AreBeats, OneKind, work-heartbeats, work-OneKind,
}
use transonic.Reporting.PlayedTime.{fallback_scrobble_threshold_ms-bounds}

abbrev track : ServerPlaybackTrack
track = record {
  song_id = "a";
  media_type = media_song;
  queue_index = some 0;
  duration_ms = some 60000;
}

abbrev said : ServerPlaybackState → ℕ → ServerReport
said state position_ms = record {
  profile_id = "p";
  playback_report = false;
  track = track;
  position_ms = position_ms;
  state = state;
}

-- The readings of a turn that starts at a time: each progress takes 300 nanoseconds.
abbrev turn_at : ℕ → Turn
turn_at now = record {
  leaving = record { elapsed_at = now; set_at = now + 300 };
  updating = record { elapsed_at = now + 1000; set_at = now + 1300 };
  submitting = record { elapsed_at = now + 2000; set_at = now + 2300 };
}

abbrev start : Turn
start = turn_at 10000000000

abbrev half_way : Turn
half_way = turn_at 40000000000

-- Half of the track is played, and then paused.
abbrev half : List (Turn × ServerReport)
half = (half_way, said paused 30000) ∷ []

abbrev events : List (Turn × Received)
events =
    (start, command (report (said playing 0)))
    ∷ (turn_at 30000000000, command (report (said playing 20000)))
    ∷ (half_way, timeout)
    ∷ (turn_at 70000000000, command (report (said paused 60000)))
    ∷ []

work-count_played_example :
    (count_played (work events idle_worker).0 ≤ pending none) × (pending none ≤ 1)
work-count_played_example =
    work-count_played (report_key (said playing 0)) events idle_worker
      ((refl, refl, tt), ((refl, refl, tt), (tt, ((refl, refl, tt), tt)))) tt

abbrev context : ServerPlaybackReportingContext
context = record { profile_id = "p"; playback_report = true }

abbrev session : ActiveReportPlaybackSession
session = record {
  context = context;
  track = track;
  state = playing;
  position_ms = 5000;
  position_updated_at = 1000000000;
}

abbrev reporting : Worker
reporting = record { active_report_playback = some session; active_fallback_scrobble = none }

abbrev beat_turns : List Turn
beat_turns = turn_at 16000000000 ∷ turn_at 31000000000 ∷ []

beat-IsClock : IsClock 300 5000 1000000000 1000000000 beat_turns
beat-IsClock = (
  record { is_later = omega arith; is_ordered = omega arith; is_quick = omega arith },
  omega arith,
  (
    record { is_later = omega arith; is_ordered = omega arith; is_quick = omega arith },
    omega arith,
    tt,
  ),
)

work-heartbeats_example :
    AreBeats context track 300 5000 1000000000 0 beat_turns (work (timeouts beat_turns) reporting).0
work-heartbeats_example = work-heartbeats 300 beat_turns session reporting refl refl beat-IsClock

work-OneKind_example :
    OneKind (work events idle_worker).1
    × (wait 80000000000 (work events idle_worker).1 ≤ idle_timeout)
work-OneKind_example = work-OneKind events 80000000000

abbrev minute : ℕ
minute = 60000

fallback_scrobble_threshold_ms-bounds_example :
    (fallback_scrobble_threshold_ms (some minute) ≤ 240000)
    × (2 * fallback_scrobble_threshold_ms (some minute) ≤ minute)
    × ((fallback_scrobble_threshold_ms (some minute) ≡ 0) ↔ (minute ≡ 1))
fallback_scrobble_threshold_ms-bounds_example =
    fallback_scrobble_threshold_ms-bounds minute (omega arith)
