-- ===== src/Controller/Helpers.antt =====
-- The free functions of src-tauri/src/playback/controller.rs on queues, errors and URLs.

use transonic.Prelude.{
  ℕ, String, Bool, true, false, ◌&&◌, ◌||◌, Option, none, some, List, [], ◌∷◌, map, length,
  get_elem?, leb, ◌==◌, str_eq, if◌then◌else◌,
}
use mathlib.Core.Option
use transonic.Result.{Result, ok, err}
use transonic.Text.{
  str_contains, str_remove, trim, to_ascii_lowercase, trim_start_slashes, trim_end_matches,
  before_colon, format,
}
use transonic.Models.{SongResponse, PlaybackError, PlaybackStatus, PlaybackOutputHost, wasapi, asio}
use transonic.Controller.State.{Url, MediaType, song, podcast}
use transonic.Queue.PlayNext.{clamped_play_next_queue_len}

abbrev pub handled_playback_error_prefix : String
handled_playback_error_prefix = "[transonic-handled-playback-error]"

abbrev pub output_device_error_prefix : String
output_device_error_prefix = "Audio output device error:"

abbrev pub output_stream_recovery_max_attempts : ℕ
output_stream_recovery_max_attempts = 3

abbrev pub prev_restart_threshold_ms : ℕ
prev_restart_threshold_ms = 3000

-- In milliseconds, outside tests.
unfoldable pub output_stream_recovery_delay : ℕ → ℕ
output_stream_recovery_delay attempt =
    if leb attempt 1 then 100 else if attempt == 2 then 500 else 1500

unfoldable pub playback_error_from_load_failure : String → PlaybackError
playback_error_from_load_failure error = record {
  message = str_remove error handled_playback_error_prefix;
  handled = str_contains error handled_playback_error_prefix;
}

unfoldable pub is_output_device_load_error : String → Bool
is_output_device_load_error error = str_contains error output_device_error_prefix

unfoldable pub is_output_stream_runtime_error : String → Bool
is_output_stream_runtime_error error =
    is_output_device_load_error error
    && (str_contains error "output stream lost" || str_contains error "output stream failed")

unfoldable pub is_missing_prepared_stream_error : String → Bool
is_missing_prepared_stream_error error =
    str_contains (to_ascii_lowercase error) "no prepared stream"

unfoldable pub format_output_device_change_error : String → Option String → String
format_output_device_change_error error none = error
format_output_device_change_error error (some rollback_error) =
    format (error ∷ "; failed to roll back output device selection: " ∷ rollback_error ∷ [])

unfoldable pub validate_queue_index : List SongResponse → Option ℕ → Result (Unit {0})
validate_queue_index [] none = ok tt
validate_queue_index [] (some _) = err "currentIndex must be omitted when entries is empty."
validate_queue_index (entry ∷ entries) none = ok tt
validate_queue_index (entry ∷ entries) (some current_index) =
    if leb (length (entry ∷ entries)) current_index
    then err "currentIndex is out of range for the provided queue entries."
    else ok tt

unfoldable pub current_queue_entry : List SongResponse → Option ℕ → Option SongResponse
current_queue_entry entries none = none
current_queue_entry entries (some current_index) = get_elem? entries current_index

unfoldable pub current_song_id : List SongResponse → Option ℕ → Option String
current_song_id entries none = none
current_song_id entries (some current_index) =
    Option.map (λ (entry : SongResponse). entry.id) (get_elem? entries current_index)

unfoldable pub clamp_play_next_queue_len : PlaybackStatus → PlaybackStatus
clamp_play_next_queue_len status = record status {
  play_next_queue_len =
      clamped_play_next_queue_len (length status.queue) status.current_index
        status.play_next_queue_len;
}

-- A text that is not blank, trimmed.
unfoldable pub trimmed_text : String → Option String
trimmed_text value = let value' = trim value in if str_eq value' "" then none else some value'

abbrev pub and_then : Option String → (String → Option String) → Option String
and_then none f = none
and_then (some a) f = f a

abbrev pub or_else : Option String → Option String → Option String
or_else none b = b
or_else (some a) b = some a

unfoldable pub display_cover_art_id : SongResponse → Option String
unfolding trimmed_text
display_cover_art_id entry =
    or_else (and_then entry.display_cover_art_id trimmed_text)
      (and_then entry.cover_art_id trimmed_text)

-- `normalize_output_device_id` of models/settings.rs.
unfoldable pub normalize_output_device_id : Option String → Option String
unfolding trimmed_text
normalize_output_device_id output_device_id = and_then output_device_id trimmed_text

-- `PlaybackOutputHost::from_output_device_id` of models/playback.rs.
unfoldable pub from_output_device_id : String → Option PlaybackOutputHost
from_output_device_id output_device_id = elim (before_colon output_device_id) [
  | none ↦ none
  | some host ↦
      if str_eq host "wasapi" then some wasapi else if str_eq host "asio" then some asio else none
]

unfoldable pub server_playback_media_type : SongResponse → MediaType
server_playback_media_type entry = elim entry.media_type [
  | none ↦ song
  | some media_type ↦ if str_eq media_type "podcast" then podcast else song
]

unfoldable pub stream_request_endpoint : Url → String
stream_request_endpoint url = trim_end_matches ".view" (trim_start_slashes url.path)

abbrev pub any_eq_ignore_ascii_case : List String → String → Bool
any_eq_ignore_ascii_case [] key = false
any_eq_ignore_ascii_case (sensitive ∷ keys) key =
    str_eq (to_ascii_lowercase sensitive) (to_ascii_lowercase key)
    || any_eq_ignore_ascii_case keys key

abbrev pub sensitive_query_keys : List String
sensitive_query_keys = "u" ∷ "p" ∷ "t" ∷ "s" ∷ "apiKey" ∷ "api_key" ∷ []

unfoldable pub redacted_pair : String × String → String × String
redacted_pair (key, value) =
    (key, if any_eq_ignore_ascii_case sensitive_query_keys key then "[redacted]" else value)

unfoldable pub redacted_stream_url : Url → String
redacted_stream_url url = url.with_query (map redacted_pair url.query_pairs)

abbrev pub option_str_eq : Option String → Option String → Bool
option_str_eq none none = true
option_str_eq (some a) (some b) = str_eq a b
option_str_eq _ _ = false
