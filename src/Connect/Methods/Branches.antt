-- ===== src/Connect/Methods/Branches.antt =====
-- Both branches of a guarded method of `ConnectRuntime` (src-tauri/src/connect.rs).
use transonic.Prelude.{
  either_branch, option_branch, ℕ, false, ◌≡◌, none, some, ◌==◌, ◌-◌, String, ◌&&◌, ◌||◌, not, ltb,
}
use transonic.Connect.State.{
  ConnectSharedPlaybackState, ConnectRuntimeInner, PendingAndroidResumeReport,
}
use transonic.Connect.Gate.{is_closed}
use transonic.Connect.Runtime.{
  is_older, with_shared, set_shared_playback, android_resume_report_max_age,
}
use transonic.Connect.Outbound.{flush_to, is_own_offline, flush_pending_android_resume_report}
use transonic.Controller.Helpers.{option_str_eq}

abbrev pub After : {A : Type 0} → (ConnectRuntimeInner → Type 0) → A × ConnectRuntimeInner → Type 0
After P outcome = P outcome.1

-- A state that `set_shared_playback` leaves: the one before, or one that holds the new shared state.
pub set_shared_playback-branches :
    (P : ConnectRuntimeInner → Type 0) (generation : ℕ) (shared : ConnectSharedPlaybackState)
    (inner : ConnectRuntimeInner)
    → P inner
    → (is_older shared inner.shared_playback ≡ false → P (with_shared shared inner))
    → P (set_shared_playback generation shared inner).1
unfolding set_shared_playback
set_shared_playback-branches P generation shared inner kept changed =
    either_branch (After P) (inner.generation == generation)
      (λ _. either_branch (After P) (is_older shared inner.shared_playback) (λ _. kept) changed)
      (λ _. kept)

module _ (P : ConnectRuntimeInner → Type 0) (inner : ConnectRuntimeInner) (kept : P inner)
    (cleared : P (record inner { pending_android_resume_report = none })) where
  flush_to-branches :
      (pending : PendingAndroidResumeReport) (sender : ℕ) (device_id : String)
      (shared : ConnectSharedPlaybackState)
      → P (flush_to pending sender device_id shared inner).1
  flush_to-branches pending sender device_id shared =
      either_branch (After P)
        (option_str_eq shared.active_device_id (some device_id)
          || (pending.allow_active_claim && is_own_offline shared device_id))
        (λ _. cleared) (λ _. kept)

  -- Flushing leaves the state, but for the pending report.
  pub flush-branches :
      (now generation : ℕ) → P (flush_pending_android_resume_report now generation inner).1
  unfolding flush_pending_android_resume_report
  flush-branches now generation =
      either_branch (After P) (not (inner.generation == generation)) (λ _. kept)
        λ _. option_branch (After P) inner.pending_android_resume_report kept λ pending.
          either_branch (After P) (ltb android_resume_report_max_age (now - pending.captured_at))
            (λ _. cleared)
            λ _.
              either_branch (After P) (not inner.status.connected || is_closed inner.queue_gate)
                (λ _. kept)
                λ _. option_branch (After P) inner.sender kept λ sender.
                  option_branch (After P) inner.device_id kept λ device_id.
                    option_branch (After P) inner.shared_playback kept
                      λ shared. flush_to-branches pending sender device_id shared
