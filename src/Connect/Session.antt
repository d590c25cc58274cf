-- ===== src/Connect/Session.antt =====
-- A run of a connection, and what starts another one (src-tauri/src/connect.rs).
use transonic.Prelude.{
  ℕ, String, Bool, true, false, not, ◌||◌, Option, none, some, List, [], ◌∷◌, is_some, str_eq,
  if◌then◌else◌,
}
use transonic.Result.{Result, ok, err}
use transonic.Text.{trim}
use transonic.Models.{PlaybackStatus}
use transonic.Controller.State.{Env}
use transonic.Controller.Exec.{Exec, pure, raise, call, ask, ◌>>=◌, ◌>>◌, if_some}
use transonic.Connect.State.{ConnectOutbound}
use transonic.Connect.Runtime.{
  begin_restart, clear_synced_queue, set_connected, mark_android_resume_sync_requested,
  queue_android_resume_report,
}
use transonic.Connect.Messages.{envelope_of, heartbeat_envelope, ConnectEnvelope}
use transonic.Connect.Link.{
  Linked, ConnectEnv, on_rest, on_runtime, change_runtime, emit_state_updated,
}
use transonic.Connect.Incoming.{
  ConnectMessage, ConnectRunResult, run_restart, handle_incoming_message,
}
use transonic.Connect.Urls.{UrlOps, ConnectSettings, resolve_connect_server_url}

-- What a run needs to log in.
pub record RunPlan : Type 0 where
  pub connect_server_url : String
  pub device_id : String
  pub device_name : String

abbrev named : Option String → String → String
named none device_id = device_id
named (some name) device_id = if str_eq (trim name) "" then device_id else name

abbrev plan_for : ConnectSettings → Option String → Result (Option RunPlan)
plan_for settings none = ok none
plan_for settings (some connect_server_url) =
    let device_id = trim settings.device_id in
    if str_eq device_id ""
    then err "connect: deviceId is missing"
    else ok (
        some (record {
          connect_server_url = connect_server_url;
          device_id = device_id;
          device_name = named settings.device_name device_id;
        }))

abbrev planned : ConnectSettings → Result (Option String) → Result (Option RunPlan)
planned settings (ok resolved) = plan_for settings resolved
planned settings (err e) = err e

-- `run_connect_once` before its login; nothing for `Disabled`. The session is the URL of its server.
unfoldable pub plan_run :
    {U : Type 0} → UrlOps U → ConnectSettings → Result String → Result (Option RunPlan)
plan_run url settings (ok subsonic_server_url) =
    if not settings.enabled
    then ok none
    else planned settings (resolve_connect_server_url url settings (some subsonic_server_url))
plan_run url settings (err e) = if not settings.enabled then ok none else err e

abbrev is_some_result : Result (Option String) → Result Bool
is_some_result (ok resolved) = ok (is_some resolved)
is_some_result (err e) = err e

-- The session is the URL of its server.
unfoldable pub should_sync_after_android_resume :
    {U : Type 0} → UrlOps U → ConnectSettings → Option String → Result Bool
should_sync_after_android_resume url settings session =
    if not settings.enabled || str_eq (trim settings.device_id) "" then ok false else elim session [
      | none ↦ ok false
      | some subsonic_server_url ↦
          is_some_result (resolve_connect_server_url url settings (some subsonic_server_url))
    ]

-- What `select!` in the loop of `run_connect_once` yields.
pub data RunEvent : Type 0 where
  outbound : Option ConnectOutbound → RunEvent
  heartbeat : RunEvent
  incoming : Option (Result ConnectMessage) → RunEvent

module _ {W : Type 0} ⦃env : Env W⦄ ⦃connect : ConnectEnv W⦄ where
  unfoldable pub write_message : ConnectEnvelope → Exec (Linked W) (Unit {0})
  write_message message = call (on_rest (connect.write message))

  -- A turn of the loop: a result, or nothing when the loop goes on.
  unfoldable pub run_event : ℕ → String → RunEvent → Exec (Linked W) (Option ConnectRunResult)
  run_event generation device_id (outbound none) = pure (some run_restart)
  run_event generation device_id (outbound (some message)) = do
    uuid ← ask (on_rest connect.new_uuid)
    write_message (envelope_of uuid device_id message)
    pure none
  run_event generation device_id heartbeat = do
    write_message (heartbeat_envelope device_id)
    pure none
  run_event generation device_id (incoming none) = pure (some run_restart)
  run_event generation device_id (incoming (some (err e))) = raise e
  run_event generation device_id (incoming (some (ok message))) = do
    handle_incoming_message generation message
    pure none

  unfoldable pub run_events : ℕ → String → List RunEvent → Exec (Linked W) (Option ConnectRunResult)
  run_events generation device_id [] = pure none
  run_events generation device_id (event ∷ events) = do
    result ← run_event generation device_id event
    let rest = run_events generation device_id events
    if_some result (λ ended. pure (some ended)) rest

  -- The websocket is there: its writer has the given number.
  unfoldable pub connected_run : ℕ → String → String → ℕ → Exec (Linked W) (Unit {0})
  connected_run generation server_url device_id sender = do
    snapshot ← on_runtime (set_connected generation server_url device_id sender)
    if_some snapshot emit_state_updated (pure tt)

  -- `restart`, whose generation goes to the new loop.
  unfoldable pub restart : Exec (Linked W) ℕ
  restart = do begun ← on_runtime begin_restart; emit_state_updated begun.1; pure begun.0

  unfoldable pub forget_synced_queue : Exec (Linked W) (Unit {0})
  forget_synced_queue = change_runtime clear_synced_queue

  -- `sync_after_android_resume`; `should_sync` is what `should_sync_after_android_resume` returns.
  unfoldable pub sync_after_android_resume :
      Result Bool → Option PlaybackStatus → Exec (Linked W) (Option ℕ)
  sync_after_android_resume (err e) playback_status = pure none
  sync_after_android_resume (ok false) playback_status = pure none
  sync_after_android_resume (ok true) playback_status = do
    now ← ask (on_rest env.now)
    requested ← on_runtime (mark_android_resume_sync_requested now)
    if requested
        then (do
          queued_at ← ask (on_rest env.now)
          if_some playback_status
              (λ status. change_runtime (queue_android_resume_report queued_at status)) (pure tt)
          generation ← restart
          pure (some generation))
        else pure none
