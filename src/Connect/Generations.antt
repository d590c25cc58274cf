-- ===== src/Connect/Generations.antt =====
-- The generations of a connection, and its end (src-tauri/src/connect.rs).
use transonic.Prelude.{
  either_branch, ℕ, ◌<◌, arith, String, true, false, ◌≡◌, refl, ◌∙◌, Option, none, [], ◌∷◌, ◌++◌,
  ◌==◌, ==_iff, Bool-cases, inl, inr, u64_mod, wrapping_add_u64, not,
}
use transonic.Result.{Result, ok, err}
use transonic.Controller.State.{Env}
use transonic.Controller.Exec.{Machine, pure, ask, tell, ◌>>=◌, if_some}
use transonic.Connect.State.{ConnectRuntimeInner, ConnectStateSnapshot, opened}
use transonic.Connect.Runtime.{
  begin_restart, set_disabled, set_disconnected, set_connected, set_devices, set_shared_playback,
  begin_apply_shared, record_synced_queue, begin_queue_resolution, snapshot_from_inner,
}
use transonic.Connect.Outbound.{flush_pending_android_resume_report}
use transonic.Connect.Link.{Linked, ConnectEnv, on_runtime, emit_state_updated}
use transonic.Connect.Incoming.{ConnectRunResult, run_disabled, run_restart, run_lost, end_run}
use transonic.Connect.Methods.{Method, perform}
use transonic.Connect.Methods.Branches.{After}

-- The method is meant for another generation than the current one.
abbrev pub IsStale : Method → ConnectRuntimeInner → Type 0
IsStale (Method.set_disabled generation) inner = ¬ (inner.generation ≡ generation)
IsStale (Method.begin_queue_resolution generation) inner = ¬ (inner.generation ≡ generation)
IsStale (Method.set_disconnected generation server_url message) inner =
    ¬ (inner.generation ≡ generation)
IsStale (Method.set_connected generation server_url device_id sender) inner =
    ¬ (inner.generation ≡ generation)
IsStale (Method.set_devices generation devices) inner = ¬ (inner.generation ≡ generation)
IsStale (Method.set_shared_playback generation shared) inner = ¬ (inner.generation ≡ generation)
IsStale (Method.begin_apply_shared generation seq) inner = ¬ (inner.generation ≡ generation)
IsStale (Method.record_synced_queue generation ids) inner = ¬ (inner.generation ≡ generation)
IsStale (Method.flush_pending_android_resume_report now generation) inner =
    ¬ (inner.generation ≡ generation)
IsStale _ inner = ⊥

is_stale : (a b : ℕ) → ¬ (a ≡ b) → (a == b) ≡ false
is_stale a b n = elim (Bool-cases (a == b)) [ inl e ↦ absurd (n ((==_iff a b).0 e)) | inr e ↦ e ]

abbrev Same : ConnectRuntimeInner → ConnectRuntimeInner → Type 0
Same inner after = after ≡ inner

-- A method that is meant for another generation changes nothing.
pub perform-stale :
    (method : Method) (inner : ConnectRuntimeInner)
    → IsStale method inner
    → perform method inner ≡ inner
unfolding perform set_disabled begin_queue_resolution set_disconnected set_connected set_devices
    set_shared_playback begin_apply_shared record_synced_queue flush_pending_android_resume_report
perform-stale (Method.set_disabled generation) inner stale =
    either_branch (After (Same inner)) (inner.generation == generation)
      (λ current. let e = is_stale inner.generation generation stale in cc) (λ _. refl)
perform-stale (Method.begin_queue_resolution generation) inner stale =
    either_branch (After (Same inner)) (inner.generation == generation)
      (λ current. let e = is_stale inner.generation generation stale in cc) (λ _. refl)
perform-stale (Method.set_disconnected generation server_url message) inner stale =
    either_branch (After (Same inner)) (inner.generation == generation)
      (λ current. let e = is_stale inner.generation generation stale in cc) (λ _. refl)
perform-stale (Method.set_connected generation server_url device_id sender) inner stale =
    either_branch (After (Same inner)) (inner.generation == generation)
      (λ current. let e = is_stale inner.generation generation stale in cc) (λ _. refl)
perform-stale (Method.set_devices generation devices) inner stale =
    either_branch (After (Same inner)) (inner.generation == generation)
      (λ current. let e = is_stale inner.generation generation stale in cc) (λ _. refl)
perform-stale (Method.set_shared_playback generation shared) inner stale =
    either_branch (After (Same inner)) (inner.generation == generation)
      (λ current. let e = is_stale inner.generation generation stale in cc) (λ _. refl)
perform-stale (Method.begin_apply_shared generation seq) inner stale =
    either_branch (After (Same inner)) (inner.generation == generation)
      (λ current. let e = is_stale inner.generation generation stale in cc) (λ _. refl)
perform-stale (Method.record_synced_queue generation ids) inner stale =
    either_branch (Same inner) (inner.generation == generation)
      (λ current. let e = is_stale inner.generation generation stale in cc) (λ _. refl)
perform-stale (Method.flush_pending_android_resume_report now generation) inner stale =
    either_branch (After (Same inner)) (not (inner.generation == generation)) (λ _. refl)
      (λ current. let e = is_stale inner.generation generation stale in cc)
perform-stale Method.begin_restart inner stale = absurd stale
perform-stale Method.clear_synced_queue inner stale = absurd stale
perform-stale Method.take_pull inner stale = absurd stale
perform-stale (Method.end_apply_shared seq) inner stale = absurd stale
perform-stale (Method.mark_android_resume_sync_requested now) inner stale = absurd stale
perform-stale (Method.queue_android_resume_report now status) inner stale = absurd stale
perform-stale (Method.begin_push command_id user_facing) inner stale = absurd stale
perform-stale (Method.fail_push command_id message) inner stale = absurd stale

next_generation :
    (generation : ℕ) → generation < u64_mod → ¬ (wrapping_add_u64 generation 1 ≡ generation)
next_generation generation h e = omega (arith, h, e)

-- The method is meant for the given generation.
abbrev pub IsMeantFor : ℕ → Method → Type 0
IsMeantFor meant (Method.set_disabled generation) = generation ≡ meant
IsMeantFor meant (Method.begin_queue_resolution generation) = generation ≡ meant
IsMeantFor meant (Method.set_disconnected generation server_url message) = generation ≡ meant
IsMeantFor meant (Method.set_connected generation server_url device_id sender) = generation ≡ meant
IsMeantFor meant (Method.set_devices generation devices) = generation ≡ meant
IsMeantFor meant (Method.set_shared_playback generation shared) = generation ≡ meant
IsMeantFor meant (Method.begin_apply_shared generation seq) = generation ≡ meant
IsMeantFor meant (Method.record_synced_queue generation ids) = generation ≡ meant
IsMeantFor meant (Method.flush_pending_android_resume_report now generation) = generation ≡ meant
IsMeantFor meant _ = ⊥

meant-IsStale :
    (method : Method) (meant : ℕ) (inner : ConnectRuntimeInner)
    → ¬ (inner.generation ≡ meant)
    → IsMeantFor meant method
    → IsStale method inner
meant-IsStale (Method.set_disabled generation) meant inner n e = λ h. n (h ∙ e)
meant-IsStale (Method.begin_queue_resolution generation) meant inner n e = λ h. n (h ∙ e)
meant-IsStale (Method.set_disconnected generation server_url message) meant inner n e =
    λ h. n (h ∙ e)
meant-IsStale (Method.set_connected generation server_url device_id sender) meant inner n e =
    λ h. n (h ∙ e)
meant-IsStale (Method.set_devices generation devices) meant inner n e = λ h. n (h ∙ e)
meant-IsStale (Method.set_shared_playback generation shared) meant inner n e = λ h. n (h ∙ e)
meant-IsStale (Method.begin_apply_shared generation seq) meant inner n e = λ h. n (h ∙ e)
meant-IsStale (Method.record_synced_queue generation ids) meant inner n e = λ h. n (h ∙ e)
meant-IsStale (Method.flush_pending_android_resume_report now generation) meant inner n e =
    λ h. n (h ∙ e)
meant-IsStale Method.begin_restart meant inner n e = absurd e
meant-IsStale Method.clear_synced_queue meant inner n e = absurd e
meant-IsStale Method.take_pull meant inner n e = absurd e
meant-IsStale (Method.end_apply_shared seq) meant inner n e = absurd e
meant-IsStale (Method.mark_android_resume_sync_requested now) meant inner n e = absurd e
meant-IsStale (Method.queue_android_resume_report now status) meant inner n e = absurd e
meant-IsStale (Method.begin_push command_id user_facing) meant inner n e = absurd e
meant-IsStale (Method.fail_push command_id message) meant inner n e = absurd e

-- A restart ends the connection and opens the gate; and behind it none of the nine methods of the runtime
-- that carry a generation (`set_disabled`, `set_disconnected`, `set_connected`, `set_devices`,
-- `set_shared_playback`, `begin_apply_shared`, `begin_queue_resolution`, `record_synced_queue` and
-- `flush_pending_android_resume_report`) changes the runtime, if it still carries the generation before
-- the restart. A generation is a machine word.
pub begin_restart-stale :
    (method : Method) (inner : ConnectRuntimeInner)
    → inner.generation < u64_mod
    → IsMeantFor inner.generation method
    → let restarted = (begin_restart inner).1 in
      (restarted.queue_gate ≡ opened)
      × (restarted.status.connected ≡ false)
      × (restarted.shared_playback ≡ none)
      × (perform method restarted ≡ restarted)
unfolding begin_restart
begin_restart-stale method inner bound meant =
    let restarted = (begin_restart inner).1 in
    let stale =
      meant-IsStale method inner.generation restarted (next_generation inner.generation bound)
        meant in
    (refl, refl, refl, perform-stale method restarted stale)

module _ {W : Type 0} ⦃env : Env W⦄ ⦃connect : ConnectEnv W⦄ where
  -- What the end of a run leaves: the gate is open, nothing is connected, and the window is told so.
  abbrev pub Ended : Machine (Linked W) → Result (Unit {0}) × Machine (Linked W) → Type 0
  Ended before out =
      let runtime = out.1.world.runtime in
      (out.0 ≡ ok tt)
      × (runtime.queue_gate ≡ opened)
      × (runtime.status.connected ≡ false)
      × (runtime.sender ≡ none)
      × (runtime.shared_playback ≡ none)
      × (out.1.controller ≡ before.controller)
      × (out.1.world.sent ≡ before.world.sent)
      × (out.1.world.emitted ≡ before.world.emitted ++ snapshot_from_inner runtime ∷ [])

  abbrev tell_window :
      Machine (Linked W)
      → Option ConnectStateSnapshot × ConnectRuntimeInner
      → Result (Unit {0}) × Machine (Linked W)
  tell_window s outcome =
      if_some outcome.0 emit_state_updated (pure tt)
        (record s { world = record s.world { runtime = outcome.1 } })

  run_lost-Ended :
      (s : Machine (Linked W)) (generation : ℕ) (server_url : Option String) (message : String)
      → (s.world.runtime.generation == generation) ≡ true
      → Ended s (run_lost generation server_url message s)
  unfolding run_lost on_runtime ask ◌>>=◌ set_disconnected if_some pure emit_state_updated tell
  run_lost-Ended s generation server_url message current =
      either_branch (λ outcome. Ended s (tell_window s outcome))
        (s.world.runtime.generation == generation)
        (λ _. (refl, refl, refl, refl, refl, refl, refl, refl)) (λ stale. cc)

  disabled-Ended :
      (s : Machine (Linked W)) (generation : ℕ) (server_url : Option String)
      → (s.world.runtime.generation == generation) ≡ true
      → Ended s (end_run generation server_url (ok run_disabled) s)
  unfolding end_run on_runtime ask ◌>>=◌ set_disabled if_some pure emit_state_updated tell
  disabled-Ended s generation server_url current =
      either_branch (λ outcome. Ended s (tell_window s outcome))
        (s.world.runtime.generation == generation)
        (λ _. (refl, refl, refl, refl, refl, refl, refl, refl)) (λ stale. cc)

  -- However a run of the current generation ends, by being disabled, by a closed connection or by an
  -- error: the queue gate is open again, nothing is connected, no shared state is left, the controller is
  -- as before, nothing is sent, and the window is told the new state once.
  pub end_run-Ended :
      (s : Machine (Linked W)) (generation : ℕ) (server_url : Option String)
      (outcome : Result ConnectRunResult)
      → s.world.runtime.generation ≡ generation
      → Ended s (end_run generation server_url outcome s)
  unfolding end_run
  end_run-Ended s generation server_url (ok run_disabled) current =
      disabled-Ended s generation server_url ((==_iff _ generation).1 current)
  end_run-Ended s generation server_url (ok run_restart) current =
      run_lost-Ended s generation server_url "connect: websocket closed"
        ((==_iff s.world.runtime.generation generation).1 current)
  end_run-Ended s generation server_url (err e) current =
      run_lost-Ended s generation server_url e
        ((==_iff s.world.runtime.generation generation).1 current)
