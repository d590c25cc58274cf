-- ===== src/Controller/State.antt =====
-- The state of `PlaybackController` (src-tauri/src/playback/controller.rs), and what it calls: the
-- traits that it holds as boxed objects, the HTTP client and the clock, as one interface over a state
-- `W` of the outside world.
use transonic.Prelude.{ℕ, String, Bool, Option, some, List}
use transonic.Result.{Result}
use transonic.Models.{
  PlayingState, PlaybackStatus, PlaybackStreamMode, PlaybackTranscodingCodec, PlaybackCapabilities,
  PlaybackActualStreamInfo, PlaybackStateFile,
}

pub record GaplessTrackTarget : Type 0 where
  pub queue_index : ℕ
  pub song_id : String

pub data PreparedGaplessTrackState : Type 0 where
  preparing ready : GaplessTrackTarget → ℕ → PreparedGaplessTrackState
  failed : GaplessTrackTarget → Option ℕ → PreparedGaplessTrackState

-- `target` and `generation`.
unfoldable pub prepared_target : PreparedGaplessTrackState → GaplessTrackTarget
prepared_target (preparing target generation) = target
prepared_target (ready target generation) = target
prepared_target (failed target generation) = target

unfoldable pub prepared_generation : PreparedGaplessTrackState → Option ℕ
prepared_generation (preparing target generation) = some generation
prepared_generation (ready target generation) = some generation
prepared_generation (failed target generation) = generation

pub record OutputStreamRecoveryPlan : Type 0 where
  pub message : String
  pub index : ℕ
  pub requested_position_ms : ℕ
  pub autoplay : Bool
  pub attempt : ℕ
  pub not_before : ℕ

pub record Controller : Type 0 where
  pub playback_capabilities : PlaybackCapabilities
  pub gapless_playback_enabled : Bool
  pub stream_mode : PlaybackStreamMode
  pub transcoding_max_bit_rate : ℕ
  pub transcoding_codec : PlaybackTranscodingCodec
  pub output_device_id : Option String
  pub output_stream_recovery_attempts : ℕ
  pub pending_output_stream_recovery : Option OutputStreamRecoveryPlan
  pub prepared_next : Option PreparedGaplessTrackState
  pub gapless_failure : Option String
  pub status : PlaybackStatus
  pub interrupted_resume_state : Option PlayingState
  pub active_profile_id : Option String
  pub restore_state_deferred : Bool

-- What the controller uses of a prepared request: its URL, with `query_pairs` and the text of the same
-- URL under another query.
pub record Url : Type 0 where
  pub path : String
  pub query_pairs : List (String × String)
  pub with_query : List (String × String) → String

pub record StreamRequest : Type 0 where
  pub id : String
  pub max_bit_rate : Option ℕ
  pub format : Option String
  pub time_offset : Option ℕ
  pub estimate_content_length : Option Bool

-- `PlaybackRuntimeContext`: the client is what it does, `client.stream(…).map_err(format_api_error)`.
pub record Context : Type 0 where
  pub client_stream : StreamRequest → Result Url
  pub transcode_offset : Bool
  pub playback_report : Bool
  pub profile_id : Option String

pub record PlaybackBackendLoadRequest : Type 0 where
  pub request : Url
  pub media_id : String
  pub title : String
  pub artist : Option String
  pub album : Option String
  pub source_content_type : Option String
  pub source_suffix : Option String
  pub artwork_path : Option String
  pub absolute_start_position_ms : ℕ
  pub local_start_position_ms : ℕ
  pub autoplay : Bool

pub record PlaybackLoadStrategy : Type 0 where
  pub stream_offset_seconds : Option ℕ
  pub local_start_position_ms : ℕ

pub data PlaybackSeekAction : Type 0 where
  applied reload_required : PlaybackSeekAction

pub data PlaybackNativeEvent : Type 0 where
  buffering ready_at playing_at paused_at seek_processed : ℕ → PlaybackNativeEvent
  error_event : String → Bool → PlaybackNativeEvent
  gapless_prepared : ℕ → PlaybackNativeEvent
  gapless_failed : ℕ → String → PlaybackNativeEvent
  gapless_transition ended : PlaybackNativeEvent

pub data ServerPlaybackState : Type 0 where
  starting playing paused stopped : ServerPlaybackState

pub data MediaType : Type 0 where
  song podcast : MediaType

pub record ServerPlaybackTrack : Type 0 where
  pub song_id : String
  pub media_type : MediaType
  pub queue_index : Option ℕ
  pub duration_ms : Option ℕ

-- One call of `PlaybackServerReporter::report_state`.
pub record ServerReport : Type 0 where
  pub profile_id : String
  pub playback_report : Bool
  pub track : ServerPlaybackTrack
  pub position_ms : ℕ
  pub state : ServerPlaybackState

-- The boxed traits `PlaybackBackend`, `PlaybackReporter`, `PlaybackServerReporter`, `QueueSyncGateway`,
-- `NativePlaybackEventSource` and `PlaybackStatePersister`, the clock in milliseconds, and the task that
-- polls again later. Any call may change the world and any fallible one may fail. Where the controller
-- drops a result, there is none.
pub record Env (W : Type 0) : Type 0 where
  pub should_estimate_content_length : PlaybackStreamMode → Bool → W → Bool
  pub plan_load : ℕ → Bool → W → PlaybackLoadStrategy
  pub load : PlaybackBackendLoadRequest → W → Result (Unit {0}) × W
  pub prepare : PlaybackBackendLoadRequest → W → Result ℕ × W
  pub activate_prepared : Bool → W → Result (Unit {0}) × W
  pub clear_prepared : W → W
  pub update_artwork : String → Option String → W → Result (Unit {0}) × W
  pub seek : ℕ → W → Result PlaybackSeekAction × W
  pub current_position_ms : W → Result ℕ × W
  pub current_stream_info : W → Result (Option PlaybackActualStreamInfo) × W
  pub set_output_device : Option String → W → Result (Unit {0}) × W
  pub pause : W → Result (Unit {0}) × W
  pub resume : W → Result (Unit {0}) × W
  pub stop : W → Result (Unit {0}) × W
  pub report_state : PlaybackStatus → W → W
  pub server_report_state : ServerReport → W → W
  pub server_clear : W → W
  pub sync_queue : PlaybackStatus → W → W
  pub drain_events : W → List PlaybackNativeEvent × W
  pub save : PlaybackStateFile → W → W
  pub now : W → ℕ × W
  pub spawn_process_native_events_after : ℕ → W → W
