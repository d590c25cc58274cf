-- ===== src/Models.antt =====
-- The data of src-tauri/src/models/playback.rs and models/connect.rs, with the fields of
-- models/browse.rs, models/settings.rs and models/session.rs that the playback controller reads.
use transonic.Prelude.{ℕ, String, Bool, true, false, Option, none, some, List, []}

pub data PlayingState : Type 0 where
  idle playing paused stopped interrupted error : PlayingState

pub data InterruptReason : Type 0 where
  initial_load stream_buffering_stall seeking full_reload : InterruptReason

pub data GaplessState : Type 0 where
  unavailable off gapless_idle preparing ready failed : GaplessState

pub record GaplessStatus : Type 0 where
  pub state : GaplessState
  pub message : String

pub record PlaybackError : Type 0 where
  pub message : String
  pub handled : Bool

pub data PlaybackStreamRequestKind : Type 0 where
  load prepare activate_prepared : PlaybackStreamRequestKind

pub data PlaybackStreamMode : Type 0 where
  raw transcoding : PlaybackStreamMode

pub data PlaybackTranscodingCodec : Type 0 where
  auto mp3 flac aac alac vorbis opus : PlaybackTranscodingCodec

unfoldable pub stream_format : PlaybackTranscodingCodec → Option String
stream_format auto = none
stream_format mp3 = some "mp3"
stream_format flac = some "flac"
stream_format aac = some "aac"
stream_format alac = some "alac"
stream_format vorbis = some "vorbis"
stream_format opus = some "opus"

pub data PlaybackOutputHost : Type 0 where
  wasapi asio : PlaybackOutputHost

-- The fields of a song that the playback code reads; it copies the others unread.
pub record SongResponse : Type 0 where
  pub id : String
  pub path : Option String
  pub title : String
  pub album : Option String
  pub artist : Option String
  pub cover_art_id : Option String
  pub display_cover_art_id : Option String
  pub duration : Option ℕ
  pub size : Option ℕ
  pub content_type : Option String
  pub suffix : Option String
  pub bit_rate : Option ℕ
  pub media_type : Option String

pub record PlaybackStreamInfo : Type 0 where
  pub request_kind : PlaybackStreamRequestKind
  pub song_id : String
  pub song_path : Option String
  pub source_content_type : Option String
  pub source_suffix : Option String
  pub source_bit_rate : Option ℕ
  pub source_size : Option ℕ
  pub stream_mode : PlaybackStreamMode
  pub raw_stream : Bool
  pub stream_format : Option String
  pub stream_max_bit_rate : Option ℕ
  pub stream_offset_seconds : Option ℕ
  pub requested_position_ms : ℕ
  pub local_start_position_ms : ℕ
  pub autoplay : Bool
  pub stream_endpoint : String
  pub stream_url : String

pub record PlaybackActualStreamInfo : Type 0 where
  pub codec : Option String
  pub codec_profile : Option String
  pub sample_rate : Option ℕ
  pub channels : Option ℕ
  pub bit_depth : Option ℕ
  pub bitrate : Option ℕ
  pub sample_format : Option String
  pub mime_type : Option String

-- An entry of `queue_index_map` is an `i32`: `none` stands for -1, a removed entry.
pub record PlaybackStatus : Type 0 where
  pub playing_state : PlayingState
  pub interrupt_reason : Option InterruptReason
  pub pending_seek_position_ms : Option ℕ
  pub gapless_status : GaplessStatus
  pub queue : List SongResponse
  pub current_index : Option ℕ
  pub play_next_queue_len : ℕ
  pub current_position_ms : ℕ
  pub current_song_id : Option String
  pub queue_revision : ℕ
  pub queue_index_map : List (Option ℕ)
  pub output_host : Option PlaybackOutputHost
  pub playback_error : Option PlaybackError
  pub active_stream_info : Option PlaybackStreamInfo
  pub prepared_stream_info : Option PlaybackStreamInfo
  pub last_stream_request : Option PlaybackStreamInfo
  pub actual_stream_info : Option PlaybackActualStreamInfo

-- `PlaybackStatus::empty`.
unfoldable pub empty_status : PlaybackStatus
empty_status = record {
  playing_state = idle;
  interrupt_reason = none;
  pending_seek_position_ms = none;
  gapless_status = record { state = unavailable; message = "gapless: unavailable" };
  queue = [];
  current_index = none;
  play_next_queue_len = 0;
  current_position_ms = 0;
  current_song_id = none;
  queue_revision = 0;
  queue_index_map = [];
  output_host = none;
  playback_error = none;
  active_stream_info = none;
  prepared_stream_info = none;
  last_stream_request = none;
  actual_stream_info = none;
}

pub record PlaybackCapabilities : Type 0 where
  pub gapless_playback : Bool
  pub transcoding_codecs : List PlaybackTranscodingCodec

pub record ConnectPlaybackState : Type 0 where
  pub playing_state : PlayingState
  pub queue : List SongResponse
  pub current_index : Option ℕ
  pub play_next_queue_len : ℕ
  pub current_position_ms : ℕ
  pub current_song_id : Option String
  pub queue_revision : ℕ
  pub queue_index_map : List (Option ℕ)

-- `PlaybackStateFile` of src-tauri/src/playback_state.rs.
pub record PlaybackStateFile : Type 0 where
  pub version : ℕ
  pub profile_id : String
  pub queue : List SongResponse
  pub current_index : Option ℕ
  pub play_next_queue_len : ℕ
  pub current_position_ms : ℕ

-- The tests that the code writes with `==` and `matches!` on these enumerations.
abbrev pub state_eq : PlayingState → PlayingState → Bool
state_eq idle idle = true
state_eq playing playing = true
state_eq paused paused = true
state_eq stopped stopped = true
state_eq interrupted interrupted = true
state_eq error error = true
state_eq _ _ = false

abbrev pub is_playing_or_paused : PlayingState → Bool
is_playing_or_paused playing = true
is_playing_or_paused paused = true
is_playing_or_paused _ = false

abbrev pub is_loaded : PlayingState → Bool
is_loaded playing = true
is_loaded paused = true
is_loaded interrupted = true
is_loaded _ = false

abbrev pub mode_eq : PlaybackStreamMode → PlaybackStreamMode → Bool
mode_eq raw raw = true
mode_eq transcoding transcoding = true
mode_eq _ _ = false

abbrev pub codec_eq : PlaybackTranscodingCodec → PlaybackTranscodingCodec → Bool
codec_eq auto auto = true
codec_eq mp3 mp3 = true
codec_eq flac flac = true
codec_eq aac aac = true
codec_eq alac alac = true
codec_eq vorbis vorbis = true
codec_eq opus opus = true
codec_eq _ _ = false
