-- ===== src/Connect/Pushes.antt =====
-- A push of the local queue, with its answer or failure (src-tauri/src/connect.rs).
use transonic.Prelude.{
  either_branch, option_branch, ℕ, String, Bool, true, false, not, ◌≡◌, refl, ap, sym, subst,
  append-nil, ◌⊎◌, inl, inr, Option, none, some, [], ◌∷◌, ◌++◌, if◌then◌else◌, eq_iff,
}
use transonic.Result.{Result, ok, err}
use transonic.Models.{ConnectPlaybackState}
use transonic.Controller.State.{Env}
use transonic.Controller.Exec.{Machine, pure, raise, lift, attempt, ask, peek, tell, ◌>>=◌}
use transonic.Connect.State.{
  ConnectRuntimeInner, QueueGate, awaiting_choice, pushing, ConnectPlaybackCommand, command_of,
  ConnectOutbound, envelope,
}
use transonic.Connect.Gate.{is_awaiting_choice}
use transonic.Connect.Runtime.{begin_push, fail_push}
use transonic.Connect.Outbound.{Send, send_playback_command, not_connected, base_seq_of}
use transonic.Connect.Link.{Linked, ConnectEnv, message_id, outbox, on_runtime, read_runtime, post}
use transonic.Connect.Incoming.{send_command, fail_local_push, finish_push, push_local_state}

-- A machine, with another gate.
abbrev gated : {W : Type 0} → Machine (Linked W) → QueueGate → Machine (Linked W)
gated s gate = record s {
  world = record s.world { runtime = record s.world.runtime { queue_gate = gate } };
}

abbrev after_failure : Bool → String → String → ConnectRuntimeInner → ConnectRuntimeInner
after_failure same message command_id inner =
    let outcome : Bool × ConnectRuntimeInner =
      if same
      then (true, record inner { queue_gate = awaiting_choice (some message) })
      else (false, record inner { queue_gate = pushing command_id true }) in
    outcome.1

fail_push_own :
    (command_id message : String) (inner : ConnectRuntimeInner)
    → (fail_push command_id message (record inner { queue_gate = pushing command_id true })).1
      ≡ record inner { queue_gate = awaiting_choice (some message) }
unfolding fail_push
fail_push_own command_id message inner =
    let same = (eq_iff command_id command_id).1 refl in
    ap (λ b. after_failure b message command_id inner) same

-- The command of a push.
abbrev pub push_message : String → ℕ → ConnectPlaybackState → ConnectOutbound
push_message command_id base_seq pushed = envelope (record {
  id = some command_id;
  message_type = "playback.command.request";
  payload = record (command_of "pushState") {
    command_id = some command_id;
    base_seq = some base_seq;
    state = some pushed;
  };
})

-- What a push has come to: it is sent and waits for its echo, or it has failed with an error, which the
-- gate shows, and nothing is sent.
abbrev pub Pushed :
    {W : Type 0}
    → Machine (Linked W)
    → ConnectPlaybackState
    → Result (Unit {0})
    → Machine (Linked W)
    → Type 0
Pushed before pushed result after =
    ((command_id : String) × (sender : ℕ) × (base_seq : ℕ) × (result ≡ ok tt)
      × (after.world.runtime.queue_gate ≡ pushing command_id true)
      × (after.world.sent
          ≡ before.world.sent ++ (sender, push_message command_id base_seq pushed) ∷ []))
    ⊎ ((message : String) × (result ≡ err message)
        × (after.world.runtime.queue_gate ≡ awaiting_choice (some message))
        × (after.world.sent ≡ before.world.sent))

-- What `send_playback_command` does with a push, in every state of a connection.
abbrev SendOutcome : String → ConnectPlaybackState → Result Bool × Option Send → Type 0
SendOutcome command_id pushed outcome =
    ((sender : ℕ) × (base_seq : ℕ) × (outcome
        ≡ (ok true, some (sender, push_message command_id base_seq pushed))))
    ⊎ ((outcome ≡ (ok false, none)) ⊎ ((message : String) × (outcome ≡ (err message, none))))

abbrev push_command : String → ConnectPlaybackState → ConnectPlaybackCommand
push_command command_id pushed = record (command_of "pushState") {
  command_id = some command_id;
  state = some pushed;
}

send_push :
    (command_id : String) (is_open : ℕ → Bool) (pushed : ConnectPlaybackState)
    (inner : ConnectRuntimeInner)
    → SendOutcome command_id pushed
        (send_playback_command command_id is_open (push_command command_id pushed) inner)
unfolding send_playback_command
send_push command_id is_open pushed inner =
    either_branch (SendOutcome command_id pushed) (not inner.status.connected) (λ _. inr (inl refl))
      λ _.
        either_branch (SendOutcome command_id pushed) (is_awaiting_choice inner.queue_gate)
          (λ _. inr (inl refl))
          λ _.
            option_branch (SendOutcome command_id pushed) inner.sender
              (inr (inr (not_connected, refl)))
              λ sender.
                either_branch (SendOutcome command_id pushed) (is_open sender)
                  (λ _. inl (sender, base_seq_of inner.shared_playback, refl))
                  (λ _. inr (inr ("connect: websocket writer is not available", refl)))

module _ {W : Type 0} ⦃env : Env W⦄ ⦃connect : ConnectEnv W⦄ where
  fail_own :
      (s : Machine (Linked W)) (command_id message : String)
      → fail_local_push command_id message (gated s (pushing command_id true))
        ≡ (err message, gated s (awaiting_choice (some message)))
  unfolding fail_local_push on_runtime ask ◌>>=◌ raise
  fail_own s command_id message =
      ap (λ inner. (err message, record s { world = record s.world { runtime = inner } }))
        (fail_push_own command_id message s.world.runtime)

  -- The machine after the sending: the push waits, and the message is out.
  abbrev waiting : Machine (Linked W) → String → Option Send → Machine (Linked W)
  waiting s command_id message =
      gated (record s { world = record s.world { sent = s.world.sent ++ outbox message } })
        (pushing command_id true)

  abbrev finished :
      Machine (Linked W)
      → String
      → Result Bool × Option Send
      → Result (Unit {0}) × Machine (Linked W)
  finished s command_id outcome = finish_push command_id outcome.0 (waiting s command_id outcome.1)

  failed-Pushed :
      (s : Machine (Linked W)) (pushed : ConnectPlaybackState) (command_id message : String)
      → let out = fail_local_push command_id message (waiting s command_id none) in
        Pushed s pushed out.0 out.1
  failed-Pushed s pushed command_id message =
      let unsent = record s { world = record s.world { sent = s.world.sent ++ [] } } in
      subst (λ (out : Result (Unit {0}) × Machine (Linked W)). Pushed s pushed out.0 out.1)
        (sym (fail_own unsent command_id message))
        (inr (message, refl, refl, append-nil s.world.sent))

  finish-Pushed :
      (s : Machine (Linked W)) (pushed : ConnectPlaybackState) (command_id : String)
      (outcome : Result Bool × Option Send)
      → SendOutcome command_id pushed outcome
      → let out = finished s command_id outcome in Pushed s pushed out.0 out.1
  unfolding finish_push pure
  finish-Pushed s pushed command_id outcome (inl (sender, base_seq, e)) =
      subst
        (λ (o : Result Bool × Option Send).
          let out = finished s command_id o in Pushed s pushed out.0 out.1)
        (sym e) (inl (command_id, sender, base_seq, refl, refl, refl))
  finish-Pushed s pushed command_id outcome (inr (inl e)) =
      subst
        (λ (o : Result Bool × Option Send).
          let out = finished s command_id o in Pushed s pushed out.0 out.1)
        (sym e) (failed-Pushed s pushed command_id not_connected)
  finish-Pushed s pushed command_id outcome (inr (inr (message, e))) =
      subst
        (λ (o : Result Bool × Option Send).
          let out = finished s command_id o in Pushed s pushed out.0 out.1)
        (sym e) (failed-Pushed s pushed command_id message)

  push_at :
      (s : Machine (Linked W)) (pushed : ConnectPlaybackState) (error : Option String)
      → let out = push_local_state pushed true (gated s (awaiting_choice error)) in
        Pushed s pushed out.0 out.1
  unfolding push_local_state send_command on_runtime read_runtime post lift attempt ask peek tell
      ◌>>=◌ begin_push
  push_at s pushed error =
      let (command_id, rest) = message_id connect "pushState" s.world.rest in
      let inner = record s.world.runtime {
        queue_gate = pushing command_id true;
        pending_android_resume_report = none;
      } in
      let begun = record s { world = record s.world { runtime = inner; rest = rest } } in
      let is_open = λ (sender : ℕ). connect.is_open sender rest in
      finish-Pushed begun pushed command_id
        (send_playback_command command_id is_open (push_command command_id pushed) inner)
        (send_push command_id is_open pushed inner)

  -- A push that the user asks for, while a choice is awaited, always ends in one of two ways: one
  -- message with the given state is sent, and the gate waits for the answer under its identifier; or
  -- nothing is sent, and the gate awaits the choice again and shows the error that is returned.
  pub push_local_state-Pushed :
      (s : Machine (Linked W)) (pushed : ConnectPlaybackState) (error : Option String)
      → s.world.runtime.queue_gate ≡ awaiting_choice error
      → let out = push_local_state pushed true s in Pushed s pushed out.0 out.1
  push_local_state-Pushed s pushed error awaiting =
      subst
        (λ gate.
          let out = push_local_state pushed true (gated s gate) in
          Pushed (gated s gate) pushed out.0 out.1)
        (sym awaiting) (push_at s pushed error)
