-- ===== src/Connect/State.antt =====
-- The data of Connect (src-tauri/src/connect.rs and src-tauri/src/models/connect.rs).
use transonic.Prelude.{ℕ, String, Bool, false, Option, none, List, []}
use transonic.Models.{SongResponse, PlaybackStatus, ConnectPlaybackState}

pub record ConnectQueueResolution : Type 0 where
  pub pushing : Bool
  pub error : Option String

pub record ConnectRuntimeStatus : Type 0 where
  pub enabled : Bool
  pub connected : Bool
  pub message : Option String
  pub server_url : Option String
  pub device_id : Option String
  pub seq : ℕ
  pub queue_resolution : Option ConnectQueueResolution

-- `ConnectRuntimeStatus::default`.
abbrev pub default_status : ConnectRuntimeStatus
default_status = record {
  enabled = false;
  connected = false;
  message = none;
  server_url = none;
  device_id = none;
  seq = 0;
  queue_resolution = none;
}

pub record ConnectDevicePresence : Type 0 where
  pub device_id : String
  pub display_name : String
  pub platform : String
  pub app_version : String
  pub last_seen_at : String
  pub online : Bool

pub record ConnectSharedPlaybackState : Type 0 where
  pub seq : ℕ
  pub active_device_id : Option String
  pub state : ConnectPlaybackState
  pub updated_at : String
  pub updated_by_device_id : Option String
  pub update_reason : Option String

pub record ConnectStateSnapshot : Type 0 where
  pub runtime : ConnectRuntimeStatus
  pub devices : List ConnectDevicePresence
  pub shared_playback : Option ConnectSharedPlaybackState

pub record ConnectPlaybackCommand : Type 0 where
  pub command_id : Option String
  pub base_seq : Option ℕ
  pub op : String
  pub queue : Option (List SongResponse)
  pub items : Option (List SongResponse)
  pub current_index : Option ℕ
  pub auto_play : Bool
  pub index : Option ℕ
  pub indices : Option (List ℕ)
  pub insert_before : Option ℕ
  pub position_ms : Option ℕ
  pub target_device_id : Option String
  pub state : Option ConnectPlaybackState

-- `ConnectPlaybackCommand { op, ..Default::default() }`.
abbrev pub command_of : String → ConnectPlaybackCommand
command_of op = record {
  command_id = none;
  base_seq = none;
  op = op;
  queue = none;
  items = none;
  current_index = none;
  auto_play = false;
  index = none;
  indices = none;
  insert_before = none;
  position_ms = none;
  target_device_id = none;
  state = none;
}

-- The payload of an envelope is a command; its JSON text is left to the serialiser.
pub record ConnectOutboundEnvelope : Type 0 where
  pub id : Option String
  pub message_type : String
  pub payload : ConnectPlaybackCommand

pub data ConnectOutbound : Type 0 where
  playback_report : ℕ → ConnectPlaybackState → ConnectOutbound
  envelope : ConnectOutboundEnvelope → ConnectOutbound

pub data QueueGate : Type 0 where
  opened : QueueGate
  awaiting_choice : Option String → QueueGate
  pushing : String → Bool → QueueGate

-- An `Instant` is a number of milliseconds.
pub record PendingAndroidResumeReport : Type 0 where
  pub state : ConnectPlaybackState
  pub captured_at : ℕ
  pub allow_active_claim : Bool

-- A sender is the number of the websocket connection whose writer receives from it.
pub record ConnectRuntimeInner : Type 0 where
  pub generation : ℕ
  pub status : ConnectRuntimeStatus
  pub sender : Option ℕ
  pub device_id : Option String
  pub devices : List ConnectDevicePresence
  pub shared_playback : Option ConnectSharedPlaybackState
  pub applying_shared_seq : Option ℕ
  pub last_android_resume_sync_at : Option ℕ
  pub pending_android_resume_report : Option PendingAndroidResumeReport
  pub queue_gate : QueueGate
  pub synced_queue_ids : Option (List String)

-- `ConnectRuntimeInner::default`.
abbrev pub default_inner : ConnectRuntimeInner
default_inner = record {
  generation = 0;
  status = default_status;
  sender = none;
  device_id = none;
  devices = [];
  shared_playback = none;
  applying_shared_seq = none;
  last_android_resume_sync_at = none;
  pending_android_resume_report = none;
  queue_gate = opened;
  synced_queue_ids = none;
}

pub record SharedPlaybackUpdate : Type 0 where
  pub shared : ConnectSharedPlaybackState
  pub should_apply : Bool
  pub allow_preserve_active_track : Bool
  pub queue_gate_closed : Bool
  pub snapshot : ConnectStateSnapshot

pub data InitialSnapshotAction : Type 0 where
  apply_server push_local ask_user : InitialSnapshotAction

-- `ConnectPlaybackState::from`.
unfoldable pub from_status : PlaybackStatus → ConnectPlaybackState
from_status status = record {
  playing_state = status.playing_state;
  queue = status.queue;
  current_index = status.current_index;
  play_next_queue_len = status.play_next_queue_len;
  current_position_ms = status.current_position_ms;
  current_song_id = status.current_song_id;
  queue_revision = status.queue_revision;
  queue_index_map = status.queue_index_map;
}
