-- ===== src/Connect/Runtime.antt =====
-- `ConnectRuntime` of src-tauri/src/connect.rs: each method runs under the lock, on the state behind it.
use transonic.Prelude.{
  ℕ, ◌-◌, String, Bool, true, false, not, ◌&&◌, Option, none, some, List, [], is_some, ltb, ◌==◌,
  str_eq, if◌then◌else◌, wrapping_add_u64,
}
use transonic.Result.{Result, ok, err}
use transonic.Models.{PlaybackStatus, playing, state_eq}
use transonic.Controller.Helpers.{option_str_eq}
use transonic.Connect.State.{
  ConnectRuntimeStatus, default_status, ConnectDevicePresence, ConnectSharedPlaybackState,
  ConnectStateSnapshot, opened, awaiting_choice, pushing, ConnectRuntimeInner, SharedPlaybackUpdate,
  from_status,
}
use transonic.Connect.Gate.{
  update_reason_push, is_closed, is_awaiting_choice, is_pushing, resolution, queue_ids,
  is_android_resume_reportable_state,
}

abbrev pub android_resume_sync_cooldown : ℕ
android_resume_sync_cooldown = 2000

abbrev pub android_resume_report_max_age : ℕ
android_resume_report_max_age = 30000

unfoldable pub status_from_inner : ConnectRuntimeInner → ConnectRuntimeStatus
status_from_inner inner = record inner.status { queue_resolution = resolution inner.queue_gate }

unfoldable pub snapshot_from_inner : ConnectRuntimeInner → ConnectStateSnapshot
unfolding status_from_inner
snapshot_from_inner inner = record {
  runtime = status_from_inner inner;
  devices = inner.devices;
  shared_playback = inner.shared_playback;
}

-- What every end of a connection clears.
abbrev pub without_connection : ConnectRuntimeInner → ConnectRuntimeInner
without_connection inner = record inner {
  sender = none;
  device_id = none;
  devices = [];
  shared_playback = none;
  queue_gate = opened;
}

-- A method that a stale generation leaves without effect.
abbrev pub guarded :
    {A : Type 0}
    → ℕ
    → (ConnectRuntimeInner → Option A × ConnectRuntimeInner)
    → ConnectRuntimeInner
    → Option A × ConnectRuntimeInner
guarded generation f inner = if inner.generation == generation then f inner else (none, inner)

-- A write, with a snapshot behind it.
abbrev pub with_snapshot : ConnectRuntimeInner → Option ConnectStateSnapshot × ConnectRuntimeInner
with_snapshot inner = (some (snapshot_from_inner inner), inner)

unfoldable pub begin_restart :
    ConnectRuntimeInner → (ℕ × ConnectStateSnapshot) × ConnectRuntimeInner
begin_restart inner =
    let inner' = record (without_connection inner) {
      generation = wrapping_add_u64 inner.generation 1;
      status = record inner.status {
        connected = false;
        message = some "connect: restarting";
        device_id = none;
      };
    } in
    ((inner'.generation, snapshot_from_inner inner'), inner')

unfoldable pub is_current : ℕ → ConnectRuntimeInner → Bool
is_current generation inner = inner.generation == generation

unfoldable pub set_disabled :
    ℕ → ConnectRuntimeInner → Option ConnectStateSnapshot × ConnectRuntimeInner
set_disabled generation = guarded generation λ inner.
    with_snapshot (record (without_connection inner) {
      status = record default_status { seq = inner.status.seq };
    })

unfoldable pub set_disconnected :
    ℕ
    → Option String
    → String
    → ConnectRuntimeInner
    → Option ConnectStateSnapshot × ConnectRuntimeInner
set_disconnected generation server_url message = guarded generation λ inner.
    with_snapshot (record (without_connection inner) {
      status = record inner.status {
        enabled = is_some server_url;
        connected = false;
        server_url = server_url;
        message = some message;
      };
    })

unfoldable pub set_connected :
    ℕ
    → String
    → String
    → ℕ
    → ConnectRuntimeInner
    → Option ConnectStateSnapshot × ConnectRuntimeInner
set_connected generation server_url device_id sender = guarded generation λ inner.
    with_snapshot (record inner {
      sender = some sender;
      device_id = some device_id;
      status = record inner.status {
        enabled = true;
        connected = true;
        server_url = some server_url;
        device_id = some device_id;
        message = some "connect: websocket connected";
      };
    })

unfoldable pub set_devices :
    ℕ
    → List ConnectDevicePresence
    → ConnectRuntimeInner
    → Option (List ConnectDevicePresence × ConnectStateSnapshot) × ConnectRuntimeInner
set_devices generation devices = guarded generation λ inner.
    let inner' = record inner { devices = devices } in
    (some (inner'.devices, snapshot_from_inner inner'), inner')

-- `device_id.as_ref().is_some_and(|device_id| other.as_deref() == Some(device_id))`.
abbrev pub is_device : Option String → Option String → Bool
is_device none other = false
is_device (some device_id) other = option_str_eq other (some device_id)

abbrev pub is_older : ConnectSharedPlaybackState → Option ConnectSharedPlaybackState → Bool
is_older shared none = false
is_older shared (some current) = ltb shared.seq current.seq

-- The echo of a push of this device: the local backend already holds its state.
abbrev pub is_own_push : Option String → ConnectSharedPlaybackState → Bool
is_own_push device_id shared =
    is_device device_id shared.updated_by_device_id
    && option_str_eq shared.update_reason (some update_reason_push)

abbrev pub is_own_report : Option String → ConnectSharedPlaybackState → Bool
is_own_report device_id shared =
    is_device device_id shared.active_device_id
    && is_device device_id shared.updated_by_device_id
    && option_str_eq shared.update_reason (some "report")

abbrev pub active_device_of : Option ConnectSharedPlaybackState → Option String
active_device_of none = none
active_device_of (some shared) = shared.active_device_id

-- `set_shared_playback` behind its guards.
abbrev pub with_shared : ConnectSharedPlaybackState → ConnectRuntimeInner → ConnectRuntimeInner
with_shared shared inner =
    let own_push = is_own_push inner.device_id shared in
    record inner {
      status = record inner.status { seq = shared.seq };
      synced_queue_ids =
          if own_push then some (queue_ids shared.state.queue) else inner.synced_queue_ids;
      queue_gate = if own_push && is_pushing inner.queue_gate then opened else inner.queue_gate;
      shared_playback = some shared;
    }

unfoldable pub set_shared_playback :
    ℕ
    → ConnectSharedPlaybackState
    → ConnectRuntimeInner
    → Option SharedPlaybackUpdate × ConnectRuntimeInner
set_shared_playback generation shared = guarded generation λ inner.
    if is_older shared inner.shared_playback
    then (none, inner)
    else let inner' = with_shared shared inner in
      (
        some (record {
          shared = shared;
          should_apply =
              not (is_own_report inner.device_id shared)
              && not (is_own_push inner.device_id shared);
          allow_preserve_active_track =
              is_device inner.device_id (active_device_of inner.shared_playback)
              && is_device inner.device_id shared.active_device_id;
          queue_gate_closed = is_closed inner'.queue_gate;
          snapshot = snapshot_from_inner inner';
        }),
        inner',
      )

unfoldable pub begin_apply_shared : ℕ → ℕ → ConnectRuntimeInner → Bool × ConnectRuntimeInner
begin_apply_shared generation seq inner =
    if inner.generation == generation
    then (true, record inner { applying_shared_seq = some seq })
    else (false, inner)

abbrev pub option_is : Option ℕ → ℕ → Bool
option_is none n = false
option_is (some m) n = m == n

unfoldable pub end_apply_shared : ℕ → ConnectRuntimeInner → ConnectRuntimeInner
end_apply_shared seq inner =
    if option_is inner.applying_shared_seq seq
    then record inner { applying_shared_seq = none }
    else inner

unfoldable pub record_synced_queue : ℕ → List String → ConnectRuntimeInner → ConnectRuntimeInner
record_synced_queue generation ids inner =
    if inner.generation == generation then record inner { synced_queue_ids = some ids } else inner

unfoldable pub clear_synced_queue : ConnectRuntimeInner → ConnectRuntimeInner
clear_synced_queue inner = record inner { synced_queue_ids = none }

abbrev pub is_within_cooldown : ℕ → Option ℕ → Bool
is_within_cooldown now none = false
is_within_cooldown now (some last) = ltb (now - last) android_resume_sync_cooldown

unfoldable pub mark_android_resume_sync_requested :
    ℕ → ConnectRuntimeInner → Bool × ConnectRuntimeInner
mark_android_resume_sync_requested now inner =
    if is_within_cooldown now inner.last_android_resume_sync_at
    then (false, inner)
    else (true, record inner { last_android_resume_sync_at = some now })

unfoldable pub queue_android_resume_report :
    ℕ → PlaybackStatus → ConnectRuntimeInner → ConnectRuntimeInner
unfolding from_status
queue_android_resume_report now status inner =
    let state = from_status status in
    if is_android_resume_reportable_state state
    then record inner {
      pending_android_resume_report = some (record {
        state = state;
        captured_at = now;
        allow_active_claim = state_eq state.playing_state playing;
      });
    }
    else inner

unfoldable pub begin_queue_resolution :
    ℕ → ConnectRuntimeInner → Option ConnectStateSnapshot × ConnectRuntimeInner
begin_queue_resolution generation = guarded generation λ inner.
    with_snapshot
      (record inner { queue_gate = awaiting_choice none; pending_android_resume_report = none })

unfoldable pub is_queue_gate_closed : ConnectRuntimeInner → Bool
is_queue_gate_closed inner = is_closed inner.queue_gate

abbrev pub no_conflict : String
no_conflict = "connect: no queue conflict is waiting for a choice"

-- The part of `push_local_state` under the lock.
unfoldable pub begin_push :
    String → Bool → ConnectRuntimeInner → Result (Unit {0}) × ConnectRuntimeInner
begin_push command_id user_facing inner =
    if user_facing && not (is_awaiting_choice inner.queue_gate) then (err no_conflict, inner) else (
      ok tt,
      record inner {
        queue_gate = pushing command_id user_facing;
        pending_android_resume_report = none;
      },
    )

unfoldable pub fail_push : String → String → ConnectRuntimeInner → Bool × ConnectRuntimeInner
fail_push command_id message inner = elim inner.queue_gate [
  | opened ↦ (false, inner)
  | awaiting_choice error ↦ (false, inner)
  | pushing pending_command_id user_facing ↦
      if str_eq pending_command_id command_id
      then (
        true,
        record inner {
          queue_gate = if user_facing then awaiting_choice (some message) else opened;
        },
      )
      else (false, inner)
]

unfoldable pub take_pull :
    ConnectRuntimeInner → Result (ℕ × ConnectSharedPlaybackState) × ConnectRuntimeInner
take_pull inner =
    if not (is_awaiting_choice inner.queue_gate)
    then (err no_conflict, inner)
    else elim inner.shared_playback [
      | none ↦ (err "connect: shared playback state is unavailable", inner)
      | some shared ↦ (ok (inner.generation, shared), record inner { queue_gate = opened })
    ]
