-- ===== src/Connect/Methods.antt =====
-- The methods of `ConnectRuntime` that write its state, as one type (src-tauri/src/connect.rs).
pub mod Branches
mod Link
pub mod GateMachine
pub mod Sequence
use transonic.Prelude.{ℕ, String, Bool, true, false, Option, List, [], ◌∷◌, ◌&&◌, ◌==◌}
use transonic.Models.{PlaybackStatus}
use transonic.Connect.State.{ConnectDevicePresence, ConnectSharedPlaybackState, ConnectRuntimeInner}
use transonic.Connect.Runtime
use transonic.Connect.Outbound

pub data Method : Type 0 where
  begin_restart clear_synced_queue take_pull : Method
  set_disabled begin_queue_resolution : ℕ → Method
  set_disconnected : ℕ → Option String → String → Method
  set_connected : ℕ → String → String → ℕ → Method
  set_devices : ℕ → List ConnectDevicePresence → Method
  set_shared_playback : ℕ → ConnectSharedPlaybackState → Method
  begin_apply_shared : ℕ → ℕ → Method
  end_apply_shared mark_android_resume_sync_requested : ℕ → Method
  record_synced_queue : ℕ → List String → Method
  queue_android_resume_report : ℕ → PlaybackStatus → Method
  flush_pending_android_resume_report : ℕ → ℕ → Method
  begin_push : String → Bool → Method
  fail_push : String → String → Method

unfoldable pub perform : Method → ConnectRuntimeInner → ConnectRuntimeInner
perform begin_restart inner = (Runtime.begin_restart inner).1
perform clear_synced_queue inner = Runtime.clear_synced_queue inner
perform take_pull inner = (Runtime.take_pull inner).1
perform (set_disabled generation) inner = (Runtime.set_disabled generation inner).1
perform (begin_queue_resolution generation) inner =
    (Runtime.begin_queue_resolution generation inner).1
perform (set_disconnected generation server_url message) inner =
    (Runtime.set_disconnected generation server_url message inner).1
perform (set_connected generation server_url device_id sender) inner =
    (Runtime.set_connected generation server_url device_id sender inner).1
perform (set_devices generation devices) inner = (Runtime.set_devices generation devices inner).1
perform (set_shared_playback generation shared) inner =
    (Runtime.set_shared_playback generation shared inner).1
perform (begin_apply_shared generation seq) inner =
    (Runtime.begin_apply_shared generation seq inner).1
perform (end_apply_shared seq) inner = Runtime.end_apply_shared seq inner
perform (mark_android_resume_sync_requested now) inner =
    (Runtime.mark_android_resume_sync_requested now inner).1
perform (record_synced_queue generation ids) inner =
    Runtime.record_synced_queue generation ids inner
perform (queue_android_resume_report now status) inner =
    Runtime.queue_android_resume_report now status inner
perform (flush_pending_android_resume_report now generation) inner =
    (Outbound.flush_pending_android_resume_report now generation inner).1
perform (begin_push command_id user_facing) inner =
    (Runtime.begin_push command_id user_facing inner).1
perform (fail_push command_id message) inner = (Runtime.fail_push command_id message inner).1

-- The methods that end the connection of this generation, and those that start another one.
unfoldable pub ends_connection : Method → ℕ → Bool
ends_connection begin_restart current = true
ends_connection (set_disabled generation) current = current == generation
ends_connection (set_disconnected generation server_url message) current = current == generation
ends_connection _ current = false

unfoldable pub perform_all : List Method → ConnectRuntimeInner → ConnectRuntimeInner
perform_all [] inner = inner
perform_all (method ∷ methods) inner = perform_all methods (perform method inner)
