-- ===== src/Connect/Methods/Link.antt =====
-- The methods that leave the status, the connection and the shared state (src-tauri/src/connect.rs).
use transonic.Prelude.{
  either_branch, option_branch, ℕ, String, Bool, true, false, ◌≡◌, refl, Option, ◌==◌, ◌&&◌, not,
  str_eq, if◌then◌else◌,
}
use transonic.Connect.State.{
  ConnectSharedPlaybackState, ConnectRuntimeInner, ConnectRuntimeStatus, from_status, QueueGate,
  opened, awaiting_choice, pushing,
}
use transonic.Connect.Gate.{is_awaiting_choice, is_android_resume_reportable_state}
use transonic.Connect.Runtime.{
  is_within_cooldown, option_is, take_pull, fail_push, clear_synced_queue, begin_queue_resolution,
  set_devices, begin_apply_shared, end_apply_shared, mark_android_resume_sync_requested,
  record_synced_queue, queue_android_resume_report, begin_push,
}
use transonic.Connect.Methods.{Method, perform}
use transonic.Connect.Methods.Branches.{After, flush-branches}

-- What every method keeps that does not touch the shared state, the status or the connection.
pub kept_or_equal :
    {A : Type 0} (P : ConnectRuntimeInner → Type 0) (b : Bool) (x y : A × ConnectRuntimeInner)
    → P x.1
    → P y.1
    → P (if b then x else y).1
kept_or_equal P true x y px py = px
kept_or_equal P false x y px py = py

-- The part of the runtime that the methods below do not change.
abbrev pub Link : Type 0
Link = ConnectRuntimeStatus × Option ℕ × Option String × Option ConnectSharedPlaybackState

abbrev pub link_of : ConnectRuntimeInner → Link
link_of inner = (inner.status, inner.sender, inner.device_id, inner.shared_playback)

abbrev pub changes_link : Method → Bool
changes_link Method.begin_restart = true
changes_link (Method.set_disabled generation) = true
changes_link (Method.set_disconnected generation server_url message) = true
changes_link (Method.set_connected generation server_url device_id sender) = true
changes_link (Method.set_shared_playback generation shared) = true
changes_link _ = false

abbrev pub SameLink : ConnectRuntimeInner → ConnectRuntimeInner → Type 0
SameLink before after = link_of after ≡ link_of before

take_pull-link : (inner : ConnectRuntimeInner) → SameLink inner (take_pull inner).1
unfolding take_pull
take_pull-link inner =
    either_branch (After (SameLink inner)) (not (is_awaiting_choice inner.queue_gate)) (λ _. refl)
      λ _. option_branch (After (SameLink inner)) inner.shared_playback refl λ shared. refl

fail_push-link :
    (command_id message : String) (inner : ConnectRuntimeInner) (gate : QueueGate)
    → let at = record inner { queue_gate = gate } in
      SameLink inner (fail_push command_id message at).1
unfolding fail_push
fail_push-link command_id message inner opened = refl
fail_push-link command_id message inner (awaiting_choice error) = refl
fail_push-link command_id message inner (pushing pending user_facing) =
    either_branch (After {A = Bool} (SameLink inner)) (str_eq pending command_id) (λ _. refl)
      (λ _. refl)

pub perform-link :
    (method : Method) (inner : ConnectRuntimeInner)
    → changes_link method ≡ false
    → SameLink inner (perform method inner)
unfolding perform clear_synced_queue begin_queue_resolution set_devices begin_apply_shared
    end_apply_shared mark_android_resume_sync_requested record_synced_queue
    queue_android_resume_report begin_push
perform-link Method.begin_restart inner h = cc
perform-link (Method.set_disabled generation) inner h = cc
perform-link (Method.set_disconnected generation server_url message) inner h = cc
perform-link (Method.set_connected generation server_url device_id sender) inner h = cc
perform-link (Method.set_shared_playback generation shared) inner h = cc
perform-link Method.take_pull inner h = take_pull-link inner
perform-link Method.clear_synced_queue inner h = refl
perform-link (Method.begin_queue_resolution generation) inner h =
    kept_or_equal (SameLink inner) (inner.generation == generation) _ _ refl refl
perform-link (Method.set_devices generation devices) inner h =
    kept_or_equal (SameLink inner) (inner.generation == generation) _ _ refl refl
perform-link (Method.begin_apply_shared generation seq) inner h =
    kept_or_equal (SameLink inner) (inner.generation == generation) _ _ refl refl
perform-link (Method.end_apply_shared seq) inner h =
    either_branch (SameLink inner) (option_is inner.applying_shared_seq seq) (λ _. refl) (λ _. refl)
perform-link (Method.mark_android_resume_sync_requested now) inner h =
    kept_or_equal (SameLink inner) (is_within_cooldown now inner.last_android_resume_sync_at) _ _
      refl refl
perform-link (Method.record_synced_queue generation ids) inner h =
    either_branch (SameLink inner) (inner.generation == generation) (λ _. refl) (λ _. refl)
perform-link (Method.queue_android_resume_report now status) inner h =
    either_branch (SameLink inner) (is_android_resume_reportable_state (from_status status))
      (λ _. refl) (λ _. refl)
perform-link (Method.flush_pending_android_resume_report now generation) inner h =
    flush-branches (SameLink inner) inner refl refl now generation
perform-link (Method.begin_push command_id user_facing) inner h =
    kept_or_equal (SameLink inner) (user_facing && not (is_awaiting_choice inner.queue_gate)) _ _
      refl refl
perform-link (Method.fail_push command_id message) inner h =
    fail_push-link command_id message inner inner.queue_gate
