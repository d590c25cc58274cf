-- ===== src/Connect/Echoes.antt =====
-- The application of a shared state to the controller, and what it sends back
-- (src-tauri/src/connect.rs).
use transonic.Prelude.{
  either_branch, ℕ, String, Bool, true, false, not, ◌||◌, ◌≡◌, refl, ap, ◌∙◌, Option, none, some,
  List, ◌++◌, append-nil, is_some, ◌==◌, ==_iff,
}
use transonic.Result.{Result, ok, err}
use transonic.Models.{PlaybackStatus}
use transonic.Controller.State.{Env}
use transonic.Controller.Helpers.{option_str_eq}
use transonic.Controller.Exec.{
  Machine, pure, raise, lift, attempt, ask, peek, tell, ◌>>=◌, if_some, when,
}
use transonic.Controller.Exec.World.{EnvLeaves}
use transonic.Controller.World.Shared.{apply_connect_shared_state-Leaves}
use transonic.Connect.State.{ConnectRuntimeInner, ConnectSharedPlaybackState}
use transonic.Connect.Gate.{is_closed, queue_ids}
use transonic.Connect.Runtime.{begin_apply_shared, end_apply_shared, option_is, record_synced_queue}
use transonic.Connect.Outbound.{Send, publish_status}
use transonic.Connect.Link.{
  Linked, linked, report_linked, ConnectEnv, outbox, on_runtime, change_runtime, read_runtime,
}
use transonic.Connect.Incoming.{
  apply_shared_to_controller, apply_on_device, apply_shared_playback_state, context_of,
}

blocked :
    (connected applying closed : Bool)
    → applying ≡ true
    → (not connected || applying || closed) ≡ true
blocked false applying closed e = refl
blocked true true closed e = refl
blocked true false closed e = cc

publish_status-none :
    (status : PlaybackStatus) (inner : ConnectRuntimeInner)
    → is_some inner.applying_shared_seq ≡ true
    → publish_status status inner ≡ none
unfolding publish_status
publish_status-none status inner applying =
    let shut =
      blocked inner.status.connected (is_some inner.applying_shared_seq)
        (is_closed inner.queue_gate) applying in
    either_branch (λ (o : Option Send). o ≡ none)
      (not inner.status.connected
        || is_some inner.applying_shared_seq
        || is_closed inner.queue_gate)
      (λ _. refl) (λ free. cc)

-- The runtime is the given one, and what is sent is as given.
abbrev Muted : {W : Type 0} → ConnectRuntimeInner → List Send → Linked W → Type 0
Muted inner sent w = (w.runtime ≡ inner) × (w.sent ≡ sent)

module _ {W : Type 0} ⦃env : Env W⦄ where
  report_linked-Muted :
      (inner : ConnectRuntimeInner) (sent : List Send) (status : PlaybackStatus)
      → is_some inner.applying_shared_seq ≡ true
      → (w : Linked W) → Muted inner sent w
      → Muted inner sent (report_linked env.report_state status w)
  unfolding report_linked
  report_linked-Muted inner sent status applying w h = (
    h.0,
    ap (λ r. w.sent ++ outbox (publish_status status r)) h.0
        ∙ ap (λ o. w.sent ++ outbox o) (publish_status-none status inner applying)
        ∙ append-nil w.sent
        ∙ h.1,
  )

  linked-EnvLeaves :
      (inner : ConnectRuntimeInner) (sent : List Send)
      → is_some inner.applying_shared_seq ≡ true
      → EnvLeaves (linked {W = W}) (Muted inner sent)
  unfolding linked
  linked-EnvLeaves inner sent applying = record {
    load = λ request w h. h;
    prepare = λ request w h. h;
    activate_prepared = λ autoplay w h. h;
    clear_prepared = λ w h. h;
    update_artwork = λ song_id path w h. h;
    seek = λ position_ms w h. h;
    current_position_ms = λ w h. h;
    current_stream_info = λ w h. h;
    set_output_device = λ device w h. h;
    pause = λ w h. h;
    resume = λ w h. h;
    stop = λ w h. h;
    report_state = λ status. report_linked-Muted inner sent status applying;
    server_report_state = λ report w h. h;
    server_clear = λ w h. h;
    sync_queue = λ status w h. h;
    drain_events = λ w h. h;
    save = λ file w h. h;
    now = λ w h. h;
    spawn_process_native_events_after = λ delay w h. h;
  }

option_is-same :
    (seq : ℕ) (inner : ConnectRuntimeInner)
    → inner.applying_shared_seq ≡ some seq
    → (end_apply_shared seq inner).applying_shared_seq ≡ none
unfolding end_apply_shared
option_is-same seq inner applying =
    let same : option_is inner.applying_shared_seq seq ≡ true =
      ap (λ o. option_is o seq) applying ∙ (==_iff seq seq).1 refl in
    either_branch (λ (r : ConnectRuntimeInner). r.applying_shared_seq ≡ none)
      (option_is inner.applying_shared_seq seq) (λ _. refl) (λ other. cc)

record_synced_queue-applying :
    (generation : ℕ) (ids : List String) (inner : ConnectRuntimeInner)
    → (record_synced_queue generation ids inner).applying_shared_seq ≡ inner.applying_shared_seq
unfolding record_synced_queue
record_synced_queue-applying generation ids inner =
    either_branch (λ (r : ConnectRuntimeInner). r.applying_shared_seq ≡ inner.applying_shared_seq)
      (inner.generation == generation) (λ _. refl) (λ _. refl)

begin_apply_shared-marks :
    (generation seq : ℕ) (inner : ConnectRuntimeInner)
    → inner.applying_shared_seq ≡ none
    → let (begun, inner') = begin_apply_shared generation seq inner in
      (begun ≡ true → inner'.applying_shared_seq ≡ some seq)
      × (begun ≡ false → inner'.applying_shared_seq ≡ none)
unfolding begin_apply_shared
begin_apply_shared-marks generation seq inner idle =
    either_branch
      (λ (r : Bool × ConnectRuntimeInner).
        (r.0 ≡ true → r.1.applying_shared_seq ≡ some seq)
        × (r.0 ≡ false → r.1.applying_shared_seq ≡ none))
      (inner.generation == generation) (λ _. (λ _. refl, λ e. cc)) (λ _. (λ e. cc, λ _. idle))

-- Nothing is sent, and nothing is being applied any more.
abbrev pub NothingSent : {W : Type 0} → List Send → Linked W → Type 0
NothingSent sent w = (w.sent ≡ sent) × (w.runtime.applying_shared_seq ≡ none)

module _ {W : Type 0} ⦃env : Env W⦄ ⦃connect : ConnectEnv W⦄ where
  controller-NothingSent :
      (s : Machine (Linked W)) (shared : ConnectSharedPlaybackState) (is_active preserve : Bool)
      → s.world.runtime.applying_shared_seq ≡ some shared.seq
      → NothingSent s.world.sent (apply_shared_to_controller shared is_active preserve s).1.world
  unfolding apply_shared_to_controller change_runtime peek attempt tell lift ◌>>=◌
  controller-NothingSent s shared is_active preserve applying =
      let inner = s.world.runtime in
      let muted = linked-EnvLeaves inner s.world.sent (ap is_some applying) in
      let context = context_of (connect.active_runtime_parts s.world.rest) in
      let kept =
        (apply_connect_shared_state-Leaves muted context shared.state is_active preserve).at s
          (refl, refl) in
      (
        kept.1,
        ap (λ r. (end_apply_shared shared.seq r).applying_shared_seq) kept.0
            ∙ option_is-same shared.seq inner applying,
      )

  -- What follows the two marks: the ids of the applied queue are recorded, unless it failed.
  recorded-NothingSent :
      (generation : ℕ) (sent : List Send) (result : Result PlaybackStatus) (s : Machine (Linked W))
      → NothingSent sent s.world
      → NothingSent sent
          ((lift result >>= λ (status : PlaybackStatus).
              change_runtime (record_synced_queue generation (queue_ids status.queue)))
            s).1.world
  unfolding ◌>>=◌ lift change_runtime tell
  recorded-NothingSent generation sent (ok status) s h =
      (h.0, record_synced_queue-applying generation (queue_ids status.queue) s.world.runtime ∙ h.1)
  recorded-NothingSent generation sent (err e) s h = h

  -- A shared state that is applied, in a runtime that applies none.
  begun-NothingSent :
      (s : Machine (Linked W)) (generation : ℕ) (shared : ConnectSharedPlaybackState)
      (is_active preserve begun : Bool) (inner : ConnectRuntimeInner)
      → (begun ≡ true → inner.applying_shared_seq ≡ some shared.seq)
      → (begun ≡ false → inner.applying_shared_seq ≡ none)
      → NothingSent s.world.sent
          (when begun
            (do
              status ← apply_shared_to_controller shared is_active preserve
              change_runtime (record_synced_queue generation (queue_ids status.queue)))
            (record s { world = record s.world { runtime = inner } })).1.world
  unfolding when pure ◌>>=◌ lift
  begun-NothingSent s generation shared is_active preserve false inner marked unmarked =
      (refl, unmarked refl)
  begun-NothingSent s generation shared is_active preserve true inner marked unmarked =
      let s' = record s { world = record s.world { runtime = inner } } in
      let (result, after) = apply_shared_to_controller shared is_active preserve s' in
      recorded-NothingSent generation s.world.sent result after
        (controller-NothingSent s' shared is_active preserve (marked refl))

  device-NothingSent :
      (s : Machine (Linked W)) (generation : ℕ) (shared : ConnectSharedPlaybackState)
      (is_active preserve : Bool)
      → s.world.runtime.applying_shared_seq ≡ none
      → NothingSent s.world.sent
          ((do
            begun ← on_runtime (begin_apply_shared generation shared.seq)
            when begun do
              status ← apply_shared_to_controller shared is_active preserve
              change_runtime (record_synced_queue generation (queue_ids status.queue)))
            s).1.world
  unfolding on_runtime ask ◌>>=◌ begin_apply_shared
  device-NothingSent s generation shared is_active preserve idle =
      let (begun, inner) = begin_apply_shared generation shared.seq s.world.runtime in
      let marks = begin_apply_shared-marks generation shared.seq s.world.runtime idle in
      begun-NothingSent s generation shared is_active preserve begun inner marks.0 marks.1

  some_device-NothingSent :
      (s : Machine (Linked W)) (generation : ℕ) (shared : ConnectSharedPlaybackState)
      (preserve : Bool) (device : Option String)
      → s.world.runtime.applying_shared_seq ≡ none
      → NothingSent s.world.sent (apply_on_device generation shared preserve device s).1.world
  unfolding apply_on_device if_some raise
  some_device-NothingSent s generation shared preserve none idle = (refl, idle)
  some_device-NothingSent s generation shared preserve (some device_id) idle =
      device-NothingSent s generation shared
        (option_str_eq shared.active_device_id (some device_id)) preserve idle

  -- Applying a shared state to the controller sends nothing to the server, whatever the controller
  -- reports meanwhile and whether it fails, so that devices do not answer one another's states for ever;
  -- and behind it nothing is marked as being applied. Nothing is so marked before.
  pub apply_shared_playback_state-NothingSent :
      (s : Machine (Linked W)) (generation : ℕ) (shared : ConnectSharedPlaybackState)
      (preserve : Bool)
      → s.world.runtime.applying_shared_seq ≡ none
      → NothingSent s.world.sent (apply_shared_playback_state generation shared preserve s).1.world
  unfolding apply_shared_playback_state read_runtime peek ◌>>=◌
  apply_shared_playback_state-NothingSent s generation shared preserve idle =
      some_device-NothingSent s generation shared preserve s.world.runtime.device_id idle
