-- ===== src/Connect/Incoming.antt =====
-- What the messages of the Connect server do, and the resolution of a queue conflict
-- (src-tauri/src/connect.rs).
use transonic.Prelude.{
  ℕ, String, Bool, true, false, not, ◌&&◌, Option, none, some, List, [], ◌∷◌, str_eq, if◌then◌else◌,
}
use transonic.Result.{Result, ok, err}
use transonic.Text.{format}
use transonic.Models.{SongResponse, PlaybackStatus, ConnectPlaybackState}
use transonic.Controller.State.{Env, Context}
use transonic.Controller.Exec.{
  Exec, pure, raise, lift, gets, attempt, ask, peek, ◌>>=◌, ◌>>◌, if_some, when, ignore,
}
use transonic.Controller.Helpers.{option_str_eq}
use transonic.Controller.Status.{state}
use transonic.Controller.Settings.{
  is_initialized_for_profile, can_preserve_active_connect_snapshot_for_profile,
}
use transonic.Controller.Transport.{
  play, pause_with_context, stop_with_context, seek, next, prev, synced_state_with_context,
}
use transonic.Controller.Shared.{apply_connect_shared_state}
use transonic.Connect.State.{
  ConnectDevicePresence, ConnectSharedPlaybackState, SharedPlaybackUpdate, InitialSnapshotAction,
  apply_server, push_local, ask_user, ConnectPlaybackCommand, command_of, from_status,
}
use transonic.Connect.Gate.{
  update_reason_snapshot, queue_ids, classify_initial_snapshot,
  should_apply_shared_playback_to_backend,
}
use transonic.Connect.Runtime.{
  snapshot_from_inner, set_disabled, set_disconnected, set_devices, set_shared_playback,
  begin_apply_shared, end_apply_shared, record_synced_queue, clear_synced_queue,
  begin_queue_resolution, is_queue_gate_closed, begin_push, fail_push, take_pull, is_device,
}
use transonic.Connect.Outbound.{
  should_preserve_pending_android_resume_snapshot, flush_pending_android_resume_report,
  send_playback_command, not_connected,
}
use transonic.Connect.Link.{
  Linked, linked, ConnectEnv, message_id, on_rest, on_runtime, change_runtime, read_runtime, post,
  emit_state_updated,
}

-- A message as it is decoded; `undecodable` holds the error of one that is not.
pub data ConnectMessage : Type 0 where
  presence_updated : List ConnectDevicePresence → ConnectMessage
  shared_playback : String → ConnectSharedPlaybackState → ConnectMessage
  playback_apply : String → Option ℕ → ConnectMessage
  command_error : Option String → String → ConnectMessage
  unknown : ConnectMessage
  undecodable : String → ConnectMessage

pub data ConnectQueueResolutionChoice : Type 0 where
  push_local_choice pull_server_choice : ConnectQueueResolutionChoice

pub data ConnectRunResult : Type 0 where
  run_disabled run_restart : ConnectRunResult

-- `active_runtime_parts(…).ok()`.
abbrev pub context_of : Result Context → Option Context
context_of (ok context) = some context
context_of (err e) = none

module _ {W : Type 0} ⦃env : Env W⦄ ⦃connect : ConnectEnv W⦄ where
  unfoldable pub active_profile_id : Exec (Linked W) (Option String)
  active_profile_id = peek λ w. connect.active_profile_id w.rest

  unfoldable pub local_queue_for_initial_snapshot : Exec (Linked W) (List SongResponse)
  local_queue_for_initial_snapshot = do
    profile ← active_profile_id
    if_some profile
        (λ profile_id. do
          initialized ← gets (λ c. is_initialized_for_profile c profile_id)
          if initialized then (do status ← state; pure status.queue) else pure [])
        (pure [])

  unfoldable pub local_playback_state : Exec (Linked W) ConnectPlaybackState
  local_playback_state = do status ← synced_state_with_context none; pure (from_status status)

  -- `send_playback_command` under the lock, and the sending behind it.
  unfoldable pub send_command : String → ConnectPlaybackCommand → Exec (Linked W) Bool
  send_command command_id command = do
    is_open ← peek λ w sender. connect.is_open sender w.rest
    outcome ← read_runtime (send_playback_command command_id is_open command)
    post outcome.1
    lift outcome.0

  unfoldable pub fail_local_push : String → String → Exec (Linked W) (Unit {0})
  fail_local_push command_id message = do on_runtime (fail_push command_id message); raise message

  -- What follows the sending.
  unfoldable pub finish_push : String → Result Bool → Exec (Linked W) (Unit {0})
  finish_push command_id (ok true) = pure tt
  finish_push command_id (ok false) = fail_local_push command_id not_connected
  finish_push command_id (err e) = fail_local_push command_id e

  unfoldable pub push_local_state : ConnectPlaybackState → Bool → Exec (Linked W) (Unit {0})
  push_local_state pushed user_facing = do
    command_id ← ask (on_rest (message_id connect "pushState"))
    begun ← on_runtime (begin_push command_id user_facing)
    lift begun
    result ← attempt (
        send_command command_id
          (record (command_of "pushState") { command_id = some command_id; state = some pushed }))
    finish_push command_id result

  unfoldable pub push_local_queue : Bool → Exec (Linked W) (Unit {0})
  push_local_queue user_facing = do local ← local_playback_state; push_local_state local user_facing

  -- What each choice on the first snapshot does; true when the snapshot is not applied.
  unfoldable pub take_initial_action : ℕ → InitialSnapshotAction → Exec (Linked W) Bool
  take_initial_action generation apply_server = pure false
  take_initial_action generation ask_user = do
    change_runtime clear_synced_queue
    snapshot ← on_runtime (begin_queue_resolution generation)
    if_some snapshot emit_state_updated (pure tt)
    pure true
  take_initial_action generation push_local = do
    change_runtime clear_synced_queue
    ignore (push_local_queue false)
    pure true

  unfoldable pub hold_local_queue_for_initial_snapshot :
      ℕ → ConnectSharedPlaybackState → Exec (Linked W) Bool
  hold_local_queue_for_initial_snapshot generation shared = do
    local_queue ← local_queue_for_initial_snapshot
    synced_queue_ids ← read_runtime (λ inner. inner.synced_queue_ids)
    take_initial_action generation
        (classify_initial_snapshot local_queue shared.state.queue synced_queue_ids)

  unfoldable pub should_preserve_active_connect_snapshot : Exec (Linked W) Bool
  should_preserve_active_connect_snapshot = do
    profile ← active_profile_id
    if_some profile
        (λ profile_id. gets (λ c. can_preserve_active_connect_snapshot_for_profile c profile_id))
        (pure false)

  -- The shared state goes to the controller, between the two marks of the runtime.
  unfoldable pub apply_shared_to_controller :
      ConnectSharedPlaybackState → Bool → Bool → Exec (Linked W) PlaybackStatus
  apply_shared_to_controller shared is_active allow_preserve_active_track = do
    parts ← peek λ w. connect.active_runtime_parts w.rest
    result ← attempt (
        apply_connect_shared_state (context_of parts) shared.state is_active
          allow_preserve_active_track)
    change_runtime (end_apply_shared shared.seq)
    lift result

  unfoldable pub apply_on_device :
      ℕ → ConnectSharedPlaybackState → Bool → Option String → Exec (Linked W) (Unit {0})
  apply_on_device generation shared allow_preserve_active_track device =
      if_some device
        (λ device_id. do
          begun ← on_runtime (begin_apply_shared generation shared.seq)
          when begun do
            status ←
                apply_shared_to_controller shared
                  (option_str_eq shared.active_device_id (some device_id))
                  allow_preserve_active_track
            change_runtime (record_synced_queue generation (queue_ids status.queue)))
        (raise "connect: device id is unavailable")

  unfoldable pub apply_shared_playback_state :
      ℕ → ConnectSharedPlaybackState → Bool → Exec (Linked W) (Unit {0})
  apply_shared_playback_state generation shared allow_preserve_active_track = do
    device ← read_runtime (λ inner. inner.device_id)
    apply_on_device generation shared allow_preserve_active_track device

  -- The operations that the server may ask for.
  unfoldable pub run_playback_op : Context → String → Option ℕ → Exec (Linked W) PlaybackStatus
  run_playback_op context op position_ms =
      if str_eq op "play"
      then play context
      else if str_eq op "pause"
      then pause_with_context (some context)
      else if str_eq op "stop"
      then stop_with_context (some context)
      else if str_eq op "seek"
      then if_some position_ms (seek context) (raise "connect: seek requires positionMs")
      else if str_eq op "next"
      then next context
      else if str_eq op "prev"
      then prev context
      else raise (format ("connect: unsupported playback apply op " ∷ op ∷ []))

  unfoldable pub execute_playback_apply : String → Option ℕ → Exec (Linked W) (Unit {0})
  execute_playback_apply op position_ms = do
    parts ← peek λ w. connect.active_runtime_parts w.rest
    context ← lift parts
    run_playback_op context op position_ms
    pure tt

  -- A shared state that the gate lets through, and the report that waits for it.
  unfoldable pub apply_update : ℕ → String → SharedPlaybackUpdate → Exec (Linked W) (Unit {0})
  apply_update generation message_type update = do
    preserved_at ← ask (on_rest env.now)
    preserve_android ←
        read_runtime
          (should_preserve_pending_android_resume_snapshot preserved_at generation update.shared)
    is_active ← read_runtime (λ inner. is_device inner.device_id update.shared.active_device_id)
    preserve_active ← should_preserve_active_connect_snapshot
    when
        (not preserve_android
          && should_apply_shared_playback_to_backend message_type update.shared update.should_apply
              is_active (is_active && preserve_active))
        (ignore
          (apply_shared_playback_state generation update.shared update.allow_preserve_active_track))
    flushed_at ← ask (on_rest env.now)
    report ← on_runtime (flush_pending_android_resume_report flushed_at generation)
    post report

  -- Whether the shared state stays away from the backend.
  unfoldable pub is_held : ℕ → SharedPlaybackUpdate → Exec (Linked W) Bool
  is_held generation update =
      if update.queue_gate_closed
      then pure true
      else if option_str_eq update.shared.update_reason (some update_reason_snapshot)
      then hold_local_queue_for_initial_snapshot generation update.shared
      else pure false

  unfoldable pub receive_update : ℕ → String → SharedPlaybackUpdate → Exec (Linked W) (Unit {0})
  receive_update generation message_type update = do
    emit_state_updated update.snapshot
    held ← is_held generation update
    when (not held) (apply_update generation message_type update)

  unfoldable pub receive_shared_playback :
      ℕ → String → ConnectSharedPlaybackState → Exec (Linked W) (Unit {0})
  receive_shared_playback generation message_type shared = do
    update ← on_runtime (set_shared_playback generation shared)
    if_some update (receive_update generation message_type) (pure tt)

  unfoldable pub emit_runtime : Exec (Linked W) (Unit {0})
  emit_runtime = do snapshot ← read_runtime snapshot_from_inner; emit_state_updated snapshot

  unfoldable pub handle_incoming_message : ℕ → ConnectMessage → Exec (Linked W) (Unit {0})
  handle_incoming_message generation (presence_updated devices) = do
    updated ← on_runtime (set_devices generation devices)
    if_some updated (λ outcome. emit_state_updated outcome.1) (pure tt)
  handle_incoming_message generation (shared_playback message_type shared) =
      receive_shared_playback generation message_type shared
  handle_incoming_message generation (playback_apply op position_ms) = do
    gate_closed ← read_runtime is_queue_gate_closed
    when (not gate_closed) (ignore (execute_playback_apply op position_ms))
  handle_incoming_message generation (command_error none message) = pure tt
  handle_incoming_message generation (command_error (some command_id) message) = do
    failed ← on_runtime (fail_push command_id message)
    when failed emit_runtime
  handle_incoming_message generation unknown = pure tt
  handle_incoming_message generation (undecodable e) = raise e

  unfoldable pub resolve_queue : ConnectQueueResolutionChoice → Exec (Linked W) (Unit {0})
  resolve_queue push_local_choice = do
    result ← attempt (push_local_queue true)
    emit_runtime
    lift result
  resolve_queue pull_server_choice = do
    pulled ← on_runtime take_pull
    pull ← lift pulled
    emit_runtime
    apply_shared_playback_state pull.0 pull.1 false

  unfoldable pub run_lost : ℕ → Option String → String → Exec (Linked W) (Unit {0})
  run_lost generation server_url message = do
    snapshot ← on_runtime (set_disconnected generation server_url message)
    if_some snapshot emit_state_updated (pure tt)

  -- What the loop does when a run has ended.
  unfoldable pub end_run : ℕ → Option String → Result ConnectRunResult → Exec (Linked W) (Unit {0})
  end_run generation server_url (ok run_disabled) = do
    snapshot ← on_runtime (set_disabled generation)
    if_some snapshot emit_state_updated (pure tt)
  end_run generation server_url (ok run_restart) =
      run_lost generation server_url "connect: websocket closed"
  end_run generation server_url (err e) = run_lost generation server_url e
