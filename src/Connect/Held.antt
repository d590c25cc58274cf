-- ===== src/Connect/Held.antt =====
-- The controller, while the queue gate is closed (src-tauri/src/connect.rs).
use transonic.Prelude.{
  either_branch, ℕ, String, Bool, true, false, not, ◌&&◌, ◌≡◌, refl, ap, ◌⊎◌, inl, inr, Option,
  none, some, List, if◌then◌else◌, ◌==◌, eq_iff,
}
use transonic.Controller.State.{Env, Controller}
use transonic.Controller.Helpers.{option_str_eq}
use transonic.Controller.Exec.{
  Machine, Exec, pure, raise, ask, peek, ◌>>=◌, if_some, when, ignore, tell,
}
use transonic.Controller.Exec.Keeps.{Keeps, keeps_rules, Keeps-bind}
use transonic.Connect.State.{
  ConnectDevicePresence, ConnectSharedPlaybackState, ConnectRuntimeInner, SharedPlaybackUpdate,
  QueueGate, opened,
}
use transonic.Connect.Gate.{
  update_reason_push, update_reason_snapshot, is_closed, is_pushing,
  should_apply_shared_playback_to_backend,
}
use transonic.Connect.Runtime.{
  set_shared_playback, is_own_push, is_own_report, is_device, is_older, is_queue_gate_closed,
}
use transonic.Connect.Outbound.{Send}
use transonic.Connect.State.{ConnectStateSnapshot}
use transonic.Connect.Link.{Linked, ConnectEnv, on_runtime, read_runtime, post, emit_state_updated}
use transonic.Connect.Incoming.{
  ConnectMessage, presence_updated, shared_playback, playback_apply, command_error, unknown,
  undecodable, should_preserve_active_connect_snapshot, active_profile_id, apply_update, is_held,
  receive_update, receive_shared_playback, emit_runtime, execute_playback_apply,
  handle_incoming_message,
}

-- What a shared state that meets a closed gate comes to: the gate stays closed, or it is the echo of
-- a push, which is not to be applied.
abbrev IsQuiet : SharedPlaybackUpdate → Type 0
IsQuiet update =
    (update.queue_gate_closed ≡ true)
    ⊎ ((update.should_apply ≡ false)
        × (option_str_eq update.shared.update_reason (some update_reason_snapshot) ≡ false))

abbrev AreQuiet : Option SharedPlaybackUpdate → Type 0
AreQuiet none = Unit {0}
AreQuiet (some update) = IsQuiet update

push_is_no_snapshot :
    (reason : Option String)
    → option_str_eq reason (some update_reason_push) ≡ true
    → option_str_eq reason (some update_reason_snapshot) ≡ false
push_is_no_snapshot none h = refl
push_is_no_snapshot (some reason) h =
    ap (λ r. option_str_eq (some r) (some update_reason_snapshot))
      ((eq_iff reason update_reason_push).0 h)

and_right : (a b : Bool) → (a && b) ≡ true → b ≡ true
and_right true b h = h
and_right false b h = cc

own_push-reason :
    (device_id : Option String) (shared : ConnectSharedPlaybackState)
    → is_own_push device_id shared ≡ true
    → option_str_eq shared.update_reason (some update_reason_push) ≡ true
own_push-reason device_id shared h = and_right (is_device device_id shared.updated_by_device_id) _ h

quiet :
    (shared : ConnectSharedPlaybackState) (own own_report : Bool) (gate : QueueGate)
    → is_closed gate ≡ true
    → (own ≡ true → option_str_eq shared.update_reason (some update_reason_snapshot) ≡ false)
    → (is_closed (if own && is_pushing gate then opened else gate) ≡ true)
      ⊎ (((not own_report && not own) ≡ false)
          × (option_str_eq shared.update_reason (some update_reason_snapshot) ≡ false))
quiet shared true true gate closed reason = inr (refl, reason refl)
quiet shared true false gate closed reason = inr (refl, reason refl)
quiet shared false own_report gate closed reason = inl closed

set_shared_playback-AreQuiet :
    (generation : ℕ) (shared : ConnectSharedPlaybackState) (inner : ConnectRuntimeInner)
    → is_closed inner.queue_gate ≡ true
    → AreQuiet (set_shared_playback generation shared inner).0
unfolding set_shared_playback
set_shared_playback-AreQuiet generation shared inner closed =
    either_branch (λ (r : Option SharedPlaybackUpdate × ConnectRuntimeInner). AreQuiet r.0)
      (inner.generation == generation)
      (λ _.
        either_branch (λ (r : Option SharedPlaybackUpdate × ConnectRuntimeInner). AreQuiet r.0)
          (is_older shared inner.shared_playback) (λ _. tt)
          (λ _.
            quiet shared (is_own_push inner.device_id shared) (is_own_report inner.device_id shared)
              inner.queue_gate closed
              (λ own.
                push_is_no_snapshot shared.update_reason
                  (own_push-reason inner.device_id shared own))))
      (λ _. tt)

module _ {W : Type 0} ⦃env : Env W⦄ ⦃connect : ConnectEnv W⦄ {P : Controller → Type 0} where
  Keeps-on_runtime :
      {A : Type 0} (f : ConnectRuntimeInner → A × ConnectRuntimeInner)
      → Keeps {W = Linked W} P (on_runtime f)
  unfolding on_runtime ask
  Keeps-on_runtime f = record { at = λ s h. h }

  Keeps-read_runtime :
      {A : Type 0} (f : ConnectRuntimeInner → A) → Keeps {W = Linked W} P (read_runtime f)
  unfolding read_runtime peek
  Keeps-read_runtime f = record { at = λ s h. h }

  Keeps-post : (message : Option Send) → Keeps {W = Linked W} P (post message)
  unfolding post tell
  Keeps-post message = record { at = λ s h. h }

  Keeps-emit :
      (snapshot : ConnectStateSnapshot) → Keeps {W = Linked W} P (emit_state_updated snapshot)
  unfolding emit_state_updated tell
  Keeps-emit snapshot = record { at = λ s h. h }

  Keeps-held :
      (held : Bool) (m : Exec (Linked W) (Unit {0})) → held ≡ true → Keeps P (when (not held) m)
  unfolding when pure
  Keeps-held true m e = record { at = λ s h. h }
  Keeps-held false m e = cc

  should_preserve-Keeps : Keeps {W = Linked W} P should_preserve_active_connect_snapshot
  unfolding should_preserve_active_connect_snapshot active_profile_id
  should_preserve-Keeps = search keeps_rules depth 40

  Keeps-unapplied :
      (android : Bool) (message_type : String) (shared : ConnectSharedPlaybackState)
      (should_apply is_active preserve : Bool) (m : Exec (Linked W) (Unit {0}))
      → should_apply ≡ false
      → Keeps P (
          when
            (not android
              && should_apply_shared_playback_to_backend message_type shared should_apply is_active
                  preserve)
            m)
  unfolding should_apply_shared_playback_to_backend when pure
  Keeps-unapplied true message_type shared should_apply is_active preserve m e = record {
    at = λ s h. h;
  }
  Keeps-unapplied false message_type shared false is_active preserve m e = record { at = λ s h. h }
  Keeps-unapplied false message_type shared true is_active preserve m e = cc

  apply_update-Keeps :
      (generation : ℕ) (message_type : String) (update : SharedPlaybackUpdate)
      → update.should_apply ≡ false
      → Keeps {W = Linked W} P (apply_update generation message_type update)
  unfolding apply_update
  apply_update-Keeps generation message_type update quiet =
      search
        (
          keeps_rules, Keeps-on_runtime, Keeps-read_runtime, Keeps-post, Keeps-unapplied,
          should_preserve-Keeps,
        )
        depth 60

  Keeps-unheld :
      (closed is_snapshot : Bool) (hold : Exec (Linked W) Bool) (m : Exec (Linked W) (Unit {0}))
      → (closed ≡ true) ⊎ (is_snapshot ≡ false × Keeps P m)
      → Keeps P (
          (if closed then pure true else if is_snapshot then hold else pure false) >>= λ held.
          when (not held) m)
  unfolding ◌>>=◌ pure when
  Keeps-unheld true is_snapshot hold m h = record { at = λ s p. p }
  Keeps-unheld false is_snapshot hold m (inl e) = cc
  Keeps-unheld false true hold m (inr h) = let e : true ≡ false = h.0 in cc
  Keeps-unheld false false hold m (inr h) = record { at = λ s p. h.1.at s p }

  receive_update-Keeps :
      (generation : ℕ) (message_type : String) (update : SharedPlaybackUpdate)
      → IsQuiet update
      → Keeps {W = Linked W} P (receive_update generation message_type update)
  unfolding receive_update is_held
  receive_update-Keeps generation message_type update quiet =
      let held : (update.queue_gate_closed ≡ true)
          ⊎ ((option_str_eq update.shared.update_reason (some update_reason_snapshot) ≡ false)
              × Keeps {W = Linked W} P (apply_update generation message_type update)) =
        elim quiet [
          | inl closed ↦ inl closed
          | inr h ↦ inr (h.1, apply_update-Keeps generation message_type update h.0)
        ] in
      Keeps-bind _ _ (Keeps-emit update.snapshot) λ _. Keeps-unheld _ _ _ _ held

  receive-Keeps :
      (generation : ℕ) (message_type : String) (update : Option SharedPlaybackUpdate)
      → AreQuiet update
      → Keeps {W = Linked W} P (if_some update (receive_update generation message_type) (pure tt))
  unfolding if_some pure
  receive-Keeps generation message_type none quiet = record { at = λ s h. h }
  receive-Keeps generation message_type (some update) quiet =
      receive_update-Keeps generation message_type update quiet

module _ {W : Type 0} ⦃env : Env W⦄ ⦃connect : ConnectEnv W⦄ where
  abbrev Unmoved : Machine (Linked W) → Exec (Linked W) (Unit {0}) → Type 0
  Unmoved s m = (m s).1.controller ≡ s.controller

  receive_shared_playback-Unmoved :
      (s : Machine (Linked W)) (generation : ℕ) (message_type : String)
      (shared : ConnectSharedPlaybackState)
      → is_closed s.world.runtime.queue_gate ≡ true
      → Unmoved s (receive_shared_playback generation message_type shared)
  unfolding receive_shared_playback on_runtime ask ◌>>=◌
  receive_shared_playback-Unmoved s generation message_type shared closed =
      let inner = s.world.runtime in
      let quiet = set_shared_playback-AreQuiet generation shared inner closed in
      (receive-Keeps {P = λ c. c ≡ s.controller} generation message_type
          (set_shared_playback generation shared inner).0 quiet).at
        _ refl

  playback_apply-Unmoved :
      (s : Machine (Linked W)) (generation : ℕ) (op : String) (position_ms : Option ℕ)
      → is_closed s.world.runtime.queue_gate ≡ true
      → Unmoved s (handle_incoming_message generation (playback_apply op position_ms))
  unfolding handle_incoming_message read_runtime peek ◌>>=◌ is_queue_gate_closed
  playback_apply-Unmoved s generation op position_ms closed =
      (Keeps-held {P = λ c. c ≡ s.controller} (is_closed s.world.runtime.queue_gate)
          (ignore (execute_playback_apply op position_ms)) closed).at
        s refl

  abbrev Leaves : Machine (Linked W) → Exec (Linked W) (Unit {0}) → Type 0
  Leaves s m = Keeps (λ c. c ≡ s.controller) m

  presence_updated-Leaves :
      (s : Machine (Linked W)) (generation : ℕ) (devices : List ConnectDevicePresence)
      → Leaves s (handle_incoming_message generation (presence_updated devices))
  unfolding handle_incoming_message
  presence_updated-Leaves s generation devices =
      search (keeps_rules, Keeps-on_runtime, Keeps-emit) depth 40

  command_error-Leaves :
      (s : Machine (Linked W)) (generation : ℕ) (command_id message : String)
      → Leaves s (handle_incoming_message generation (command_error (some command_id) message))
  unfolding handle_incoming_message emit_runtime
  command_error-Leaves s generation command_id message =
      search (keeps_rules, Keeps-on_runtime, Keeps-read_runtime, Keeps-emit) depth 40

  -- While the queue gate is closed, no message of the server changes the controller: neither another
  -- shared state, nor the echo of the push that opens the gate, nor a command. The gate may be closed
  -- for a choice of the user or for a push.
  pub handle_incoming_message-Unmoved :
      (s : Machine (Linked W)) (generation : ℕ) (message : ConnectMessage)
      → is_closed s.world.runtime.queue_gate ≡ true
      → (handle_incoming_message generation message s).1.controller ≡ s.controller
  unfolding handle_incoming_message pure raise
  handle_incoming_message-Unmoved s generation (shared_playback message_type shared) closed =
      receive_shared_playback-Unmoved s generation message_type shared closed
  handle_incoming_message-Unmoved s generation (playback_apply op position_ms) closed =
      playback_apply-Unmoved s generation op position_ms closed
  handle_incoming_message-Unmoved s generation (presence_updated devices) closed =
      (presence_updated-Leaves s generation devices).at s refl
  handle_incoming_message-Unmoved s generation (command_error none message) closed = refl
  handle_incoming_message-Unmoved s generation (command_error (some command_id) message) closed =
      (command_error-Leaves s generation command_id message).at s refl
  handle_incoming_message-Unmoved s generation unknown closed = refl
  handle_incoming_message-Unmoved s generation (undecodable e) closed = refl
