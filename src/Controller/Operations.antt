-- ===== src/Controller/Operations.antt =====
-- Every public operation of `PlaybackController`, and the states that a program can reach with them.
use transonic.Prelude.{ℕ, ◌≤◌, String, Bool, false, Option, none, List, length, usize_max}
use transonic.Models.{
  SongResponse, PlaybackStreamMode, PlaybackTranscodingCodec, PlaybackCapabilities,
  ConnectPlaybackState, empty_status, raw, mp3,
}
use transonic.Controller.State.{Controller, Env, Context}
use transonic.Controller.Exec.{Machine, Exec, ignore}
use transonic.Controller.Helpers.{normalize_output_device_id}
use transonic.Controller.Status
use transonic.Controller.Settings
use transonic.Controller.QueueOps
use transonic.Controller.Removal
use transonic.Controller.Transport
use transonic.Controller.Shared

pub data Operation : Type 0 where
  state sync_and_persist reset on_track_finished : Operation
  set_active_profile_id : Option String → Operation
  defer_state_restore : String → Operation
  set_gapless_playback_enabled : Bool → Option Context → Operation
  set_stream_settings :
      PlaybackStreamMode → ℕ → PlaybackTranscodingCodec → Option Context → Operation
  set_output_device : Option String → Option Context → Operation
  update_artwork_if_current : Settings.PlaybackArtworkUpdateTarget → String → Operation
  restore_state : String → List SongResponse → Option ℕ → ℕ → ℕ → Operation
  set_queue : List SongResponse → Option ℕ → Operation
  clear_queue pause_with_context stop_with_context : Option Context → Operation
  synced_state_with_context process_native_events : Option Context → Operation
  set_position : ℕ → Operation
  apply_connect_shared_state : Option Context → ConnectPlaybackState → Bool → Bool → Operation
  insert_after_current append_to_queue : List SongResponse → Operation
  move_queue_indices : List ℕ → ℕ → Operation
  remove_queue_index : Option Context → ℕ → Operation
  remove_queue_indices : Option Context → List ℕ → Operation
  play next prev : Context → Operation
  play_queue_index seek : Context → ℕ → Operation

module _ {W : Type 0} ⦃env : Env W⦄ where
  unfoldable pub run : Operation → Exec W (Unit {0})
  run state = ignore Status.state
  run sync_and_persist = Transport.sync_and_persist
  run reset = ignore Transport.reset
  run on_track_finished = ignore Transport.on_track_finished
  run (set_active_profile_id profile_id) = Settings.set_active_profile_id profile_id
  run (defer_state_restore profile_id) = Settings.defer_state_restore profile_id
  run (set_gapless_playback_enabled enabled context) =
      Settings.set_gapless_playback_enabled enabled context
  run (set_stream_settings mode max_bit_rate codec context) =
      Settings.set_stream_settings mode max_bit_rate codec context
  run (set_output_device device context) = Settings.set_output_device device context
  run (update_artwork_if_current target path) =
      ignore (Settings.update_artwork_if_current target path)
  run (restore_state profile_id queue current_index play_next_queue_len position_ms) =
      ignore (QueueOps.restore_state profile_id queue current_index play_next_queue_len position_ms)
  run (set_queue entries current_index) = ignore (QueueOps.set_queue entries current_index)
  run (clear_queue context) = ignore (QueueOps.clear_queue context)
  run (pause_with_context context) = ignore (Transport.pause_with_context context)
  run (stop_with_context context) = ignore (Transport.stop_with_context context)
  run (synced_state_with_context context) = ignore (Transport.synced_state_with_context context)
  run (process_native_events context) = Transport.process_native_events context
  run (set_position position_ms) = ignore (QueueOps.set_position position_ms)
  run (apply_connect_shared_state context shared is_active_device allow_preserve_active_track) =
      ignore (
        Shared.apply_connect_shared_state context shared is_active_device
          allow_preserve_active_track)
  run (insert_after_current songs) = ignore (QueueOps.insert_after_current songs)
  run (append_to_queue songs) = ignore (QueueOps.append_to_queue songs)
  run (move_queue_indices indices insert_before) =
      ignore (QueueOps.move_queue_indices indices insert_before)
  run (remove_queue_index context index) = ignore (Removal.remove_queue_index context index)
  run (remove_queue_indices context indices) = ignore (Removal.remove_queue_indices context indices)
  run (play context) = ignore (Transport.play context)
  run (next context) = ignore (Transport.next context)
  run (prev context) = ignore (Transport.prev context)
  run (play_queue_index context index) = ignore (Transport.play_queue_index context index)
  run (seek context position_ms) = ignore (Transport.seek context position_ms)

-- `PlaybackController::new`, without the volume.
unfoldable pub new : PlaybackCapabilities → Bool → Option String → Controller
unfolding empty_status
new playback_capabilities gapless_playback_enabled initial_output_device_id = record {
  playback_capabilities = playback_capabilities;
  gapless_playback_enabled = gapless_playback_enabled;
  stream_mode = raw;
  transcoding_max_bit_rate = 320;
  transcoding_codec = mp3;
  output_device_id = normalize_output_device_id initial_output_device_id;
  output_stream_recovery_attempts = 0;
  pending_output_stream_recovery = none;
  prepared_next = none;
  gapless_failure = none;
  status = empty_status;
  interrupted_resume_state = none;
  active_profile_id = none;
  restore_state_deferred = false;
}

-- A `Vec` holds at most `usize::MAX` entries.
abbrev pub QueueFits : Controller → Type 0
QueueFits c = length c.status.queue ≤ usize_max

-- The states of a run: a new controller, an operation, or a change of the outside world between two.
pub data Reachable {W : Type 0} ⦃env : Env W⦄ : Machine W → Type 0 where
  started :
      (playback_capabilities : PlaybackCapabilities) (gapless_playback_enabled : Bool)
      (initial_output_device_id : Option String) (world : W)
      → Reachable (record {
        controller = new playback_capabilities gapless_playback_enabled initial_output_device_id;
        world = world;
      })
  operated :
      (s : Machine W) (operation : Operation)
      → Reachable s
      → QueueFits s.controller
      → Reachable (run operation s).1
  changed : (s : Machine W) (world : W) → Reachable s → Reachable (record s { world = world })
