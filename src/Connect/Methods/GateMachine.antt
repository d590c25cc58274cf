-- ===== src/Connect/Methods/GateMachine.antt =====
-- The queue gate as a machine of its own (src-tauri/src/connect.rs).
use transonic.Prelude.{
  either_branch, option_branch, ℕ, String, Bool, true, false, ◌≡◌, refl, Option, none, some, ◌==◌,
  ◌&&◌, str_eq, if◌then◌else◌,
}
use transonic.Connect.State.{
  QueueGate, opened, awaiting_choice, pushing, ConnectSharedPlaybackState, ConnectRuntimeInner,
  from_status,
}
use transonic.Connect.Gate.{is_pushing, is_android_resume_reportable_state}
use transonic.Connect.Runtime.{
  option_is, is_own_push, is_within_cooldown, begin_restart, clear_synced_queue, set_disabled,
  begin_queue_resolution, set_disconnected, set_connected, set_devices, begin_apply_shared,
  end_apply_shared, mark_android_resume_sync_requested, record_synced_queue,
  queue_android_resume_report, begin_push, fail_push, take_pull,
}
use transonic.Connect.Methods.{Method, perform}
use transonic.Connect.Methods.Branches.{After, set_shared_playback-branches, flush-branches}

-- The changes of the gate, each by the method that it belongs to, in a generation and on a device. Every
-- method may also leave the gate alone.
pub data GateStep (current : ℕ) (device_id : Option String)
    : Method → QueueGate → QueueGate → Type 0 where
  stays : (method : Method) (gate : QueueGate) → GateStep current device_id method gate gate
  asks :
      (generation : ℕ) (gate : QueueGate)
      → (current == generation) ≡ true
      → GateStep current device_id
          (Method.begin_queue_resolution generation)
          gate
          (awaiting_choice none)
  chosen :
      (error : Option String) (command_id : String)
      → GateStep current device_id
          (Method.begin_push command_id true)
          (awaiting_choice error)
          (pushing command_id true)
  pushes :
      (gate : QueueGate) (command_id : String)
      → GateStep current device_id
          (Method.begin_push command_id false)
          gate
          (pushing command_id false)
  fails :
      (pending command_id message : String)
      → str_eq pending command_id ≡ true
      → GateStep current device_id
          (Method.fail_push command_id message)
          (pushing pending true)
          (awaiting_choice (some message))
  gives_up :
      (pending command_id message : String)
      → str_eq pending command_id ≡ true
      → GateStep current device_id
          (Method.fail_push command_id message)
          (pushing pending false)
          opened
  confirmed :
      (generation : ℕ) (shared : ConnectSharedPlaybackState) (command_id : String)
      (user_facing : Bool)
      → is_own_push device_id shared ≡ true
      → GateStep current device_id
          (Method.set_shared_playback generation shared)
          (pushing command_id user_facing)
          opened
  pulled :
      (error : Option String)
      → GateStep current device_id Method.take_pull (awaiting_choice error) opened
  restarted : (gate : QueueGate) → GateStep current device_id Method.begin_restart gate opened
  disabled :
      (generation : ℕ) (gate : QueueGate)
      → (current == generation) ≡ true
      → GateStep current device_id (Method.set_disabled generation) gate opened
  disconnected :
      (generation : ℕ) (server_url : Option String) (message : String) (gate : QueueGate)
      → (current == generation) ≡ true
      → GateStep current device_id
          (Method.set_disconnected generation server_url message)
          gate
          opened

-- A step of the method from a gate to that of a state.
abbrev Next : ℕ → Option String → Method → QueueGate → ConnectRuntimeInner → Type 0
Next current device_id method before after =
    GateStep current device_id method before after.queue_gate

abbrev at_gate : ConnectRuntimeInner → QueueGate → ConnectRuntimeInner
at_gate inner gate = record inner { queue_gate = gate }

module _ (current : ℕ) (device_id : Option String) where
  begin_push-GateStep :
      (command_id : String) (user_facing : Bool) (inner : ConnectRuntimeInner) (gate : QueueGate)
      → Next current device_id
          (Method.begin_push command_id user_facing)
          gate
          (begin_push command_id user_facing (at_gate inner gate)).1
  unfolding begin_push
  begin_push-GateStep command_id false inner gate = pushes gate command_id
  begin_push-GateStep command_id true inner opened = stays _ opened
  begin_push-GateStep command_id true inner (awaiting_choice error) = chosen error command_id
  begin_push-GateStep command_id true inner (pushing pending user_facing) =
      stays _ (pushing pending user_facing)

  fail_push-GateStep :
      (command_id message : String) (inner : ConnectRuntimeInner) (gate : QueueGate)
      → Next current device_id
          (Method.fail_push command_id message)
          gate
          (fail_push command_id message (at_gate inner gate)).1
  unfolding fail_push
  fail_push-GateStep command_id message inner opened = stays _ opened
  fail_push-GateStep command_id message inner (awaiting_choice error) =
      stays _ (awaiting_choice error)
  fail_push-GateStep command_id message inner (pushing pending true) =
      either_branch
        (After {A = Bool}
          (Next current device_id (Method.fail_push command_id message) (pushing pending true)))
        (str_eq pending command_id) (fails pending command_id message)
        (λ _. stays _ (pushing pending true))
  fail_push-GateStep command_id message inner (pushing pending false) =
      either_branch
        (After {A = Bool}
          (Next current device_id (Method.fail_push command_id message) (pushing pending false)))
        (str_eq pending command_id) (gives_up pending command_id message)
        (λ _. stays _ (pushing pending false))

  take_pull-GateStep :
      (inner : ConnectRuntimeInner) (gate : QueueGate)
      → Next current device_id Method.take_pull gate (take_pull (at_gate inner gate)).1
  unfolding take_pull
  take_pull-GateStep inner opened = stays _ opened
  take_pull-GateStep inner (pushing command_id user_facing) =
      stays _ (pushing command_id user_facing)
  take_pull-GateStep inner (awaiting_choice error) =
      option_branch (After (Next current device_id Method.take_pull (awaiting_choice error)))
        inner.shared_playback (stays _ (awaiting_choice error)) (λ shared. pulled error)

  confirm-GateStep :
      (generation : ℕ) (shared : ConnectSharedPlaybackState) (own_push : Bool) (gate : QueueGate)
      → is_own_push device_id shared ≡ own_push
      → GateStep current device_id
          (Method.set_shared_playback generation shared)
          gate
          (if own_push && is_pushing gate then opened else gate)
  confirm-GateStep generation shared false gate e = stays _ gate
  confirm-GateStep generation shared true opened e = stays _ opened
  confirm-GateStep generation shared true (awaiting_choice error) e =
      stays _ (awaiting_choice error)
  confirm-GateStep generation shared true (pushing command_id user_facing) e =
      confirmed generation shared command_id user_facing e

-- Each method of the runtime changes the queue gate only along the machine. A gate that awaits a choice
-- opens only by a pull, a restart, or the end of the connection of the current generation; one that
-- waits for a push only by the echo of a push of this device, by the failure of its push if the user did
-- not ask for it, by a restart, or by that end. An open gate closes only by a question in the current
-- generation or by the start of a push that the user did not ask for. A push that the user asks for
-- starts only while a choice is awaited, and its failure awaits the choice again.
pub perform-GateStep :
    (method : Method) (inner : ConnectRuntimeInner)
    → GateStep inner.generation inner.device_id method inner.queue_gate
        (perform method inner).queue_gate
unfolding perform begin_restart clear_synced_queue set_disabled begin_queue_resolution
    set_disconnected set_connected set_devices begin_apply_shared end_apply_shared
    mark_android_resume_sync_requested record_synced_queue queue_android_resume_report
perform-GateStep Method.begin_restart inner = restarted inner.queue_gate
perform-GateStep Method.clear_synced_queue inner = stays _ inner.queue_gate
perform-GateStep Method.take_pull inner =
    take_pull-GateStep inner.generation inner.device_id inner inner.queue_gate
perform-GateStep (Method.set_disabled generation) inner =
    either_branch
      (After
        (Next inner.generation inner.device_id (Method.set_disabled generation) inner.queue_gate))
      (inner.generation == generation) (disabled generation inner.queue_gate)
      (λ _. stays _ inner.queue_gate)
perform-GateStep (Method.set_disconnected generation server_url message) inner =
    either_branch
      (After (
        Next inner.generation inner.device_id
          (Method.set_disconnected generation server_url message) inner.queue_gate))
      (inner.generation == generation) (disconnected generation server_url message inner.queue_gate)
      (λ _. stays _ inner.queue_gate)
perform-GateStep (Method.begin_queue_resolution generation) inner =
    either_branch
      (After (
        Next inner.generation inner.device_id (Method.begin_queue_resolution generation)
          inner.queue_gate))
      (inner.generation == generation) (asks generation inner.queue_gate)
      (λ _. stays _ inner.queue_gate)
perform-GateStep (Method.set_connected generation server_url device_id sender) inner =
    either_branch
      (After (
        Next inner.generation inner.device_id
          (Method.set_connected generation server_url device_id sender) inner.queue_gate))
      (inner.generation == generation) (λ _. stays _ inner.queue_gate)
      (λ _. stays _ inner.queue_gate)
perform-GateStep (Method.set_devices generation devices) inner =
    either_branch
      (After (
        Next inner.generation inner.device_id (Method.set_devices generation devices)
          inner.queue_gate))
      (inner.generation == generation) (λ _. stays _ inner.queue_gate)
      (λ _. stays _ inner.queue_gate)
perform-GateStep (Method.set_shared_playback generation shared) inner =
    set_shared_playback-branches
      (Next inner.generation inner.device_id (Method.set_shared_playback generation shared)
        inner.queue_gate)
      generation shared inner (stays _ inner.queue_gate)
      (λ _.
        confirm-GateStep inner.generation inner.device_id generation shared
          (is_own_push inner.device_id shared) inner.queue_gate refl)
perform-GateStep (Method.begin_apply_shared generation seq) inner =
    either_branch
      (After (
        Next inner.generation inner.device_id (Method.begin_apply_shared generation seq)
          inner.queue_gate))
      (inner.generation == generation) (λ _. stays _ inner.queue_gate)
      (λ _. stays _ inner.queue_gate)
perform-GateStep (Method.end_apply_shared seq) inner =
    either_branch
      (Next inner.generation inner.device_id (Method.end_apply_shared seq) inner.queue_gate)
      (option_is inner.applying_shared_seq seq) (λ _. stays _ inner.queue_gate)
      (λ _. stays _ inner.queue_gate)
perform-GateStep (Method.mark_android_resume_sync_requested now) inner =
    either_branch
      (After (
        Next inner.generation inner.device_id (Method.mark_android_resume_sync_requested now)
          inner.queue_gate))
      (is_within_cooldown now inner.last_android_resume_sync_at) (λ _. stays _ inner.queue_gate)
      (λ _. stays _ inner.queue_gate)
perform-GateStep (Method.record_synced_queue generation ids) inner =
    either_branch
      (Next inner.generation inner.device_id (Method.record_synced_queue generation ids)
        inner.queue_gate)
      (inner.generation == generation) (λ _. stays _ inner.queue_gate)
      (λ _. stays _ inner.queue_gate)
perform-GateStep (Method.queue_android_resume_report now status) inner =
    either_branch
      (Next inner.generation inner.device_id (Method.queue_android_resume_report now status)
        inner.queue_gate)
      (is_android_resume_reportable_state (from_status status)) (λ _. stays _ inner.queue_gate)
      (λ _. stays _ inner.queue_gate)
perform-GateStep (Method.flush_pending_android_resume_report now generation) inner =
    flush-branches
      (Next inner.generation inner.device_id
        (Method.flush_pending_android_resume_report now generation) inner.queue_gate)
      inner (stays _ inner.queue_gate) (stays _ inner.queue_gate) now generation
perform-GateStep (Method.begin_push command_id user_facing) inner =
    begin_push-GateStep inner.generation inner.device_id command_id user_facing inner
      inner.queue_gate
perform-GateStep (Method.fail_push command_id message) inner =
    fail_push-GateStep inner.generation inner.device_id command_id message inner inner.queue_gate
