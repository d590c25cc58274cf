-- ===== src/Connect/Link.antt =====
-- The Connect runtime as a part of the world of the playback controller: `ConnectPlaybackReporter` of
-- src-tauri/src/connect.rs is one of the controller's reporters.
use transonic.Prelude.{ℕ, String, Bool, Option, none, some, List, [], ◌∷◌, ◌++◌}
use transonic.Result.{Result}
use transonic.Models.{PlaybackStatus}
use transonic.Controller.State.{Env, Context}
use transonic.Controller.Exec.{Exec, ask, peek, tell}
use transonic.Connect.State.{ConnectRuntimeInner, ConnectStateSnapshot}
use transonic.Connect.Messages.{ConnectEnvelope, connect_message_id}
use transonic.Connect.Outbound.{Send, publish_status}

-- The runtime, what it has sent and shown so far, and the rest of the world.
pub record Linked (W : Type 0) : Type 0 where
  pub runtime : ConnectRuntimeInner
  pub sent : List Send
  pub emitted : List ConnectStateSnapshot
  pub rest : W

-- What Connect uses besides: the active session, `Uuid::new_v4` as a text, whether the writer of a
-- connection still receives, and the websocket, on which a write may fail.
pub record ConnectEnv (W : Type 0) : Type 0 where
  pub active_profile_id : W → Option String
  pub active_runtime_parts : W → Result Context
  pub new_uuid : W → String × W
  pub is_open : ℕ → W → Bool
  pub write : ConnectEnvelope → W → Result (Unit {0}) × W

-- A fresh identifier for a message.
abbrev pub message_id : {W : Type 0} → ConnectEnv W → String → W → String × W
message_id connect message_type w =
    let (uuid, w') = connect.new_uuid w in (connect_message_id message_type uuid, w')

abbrev pub outbox : Option Send → List Send
outbox none = []
outbox (some message) = message ∷ []

module _ {W : Type 0} where
  -- A call that only the rest of the world answers.
  abbrev pub on_rest : {A : Type 0} → (W → A × W) → Linked W → A × Linked W
  on_rest f w = let (a, rest) = f w.rest in (a, record w { rest = rest })

  abbrev pub change_rest : (W → W) → Linked W → Linked W
  change_rest f w = record w { rest = f w.rest }

  -- `report_state` of the composite reporter: the window's reporter, then that of Connect.
  unfoldable pub report_linked : (PlaybackStatus → W → W) → PlaybackStatus → Linked W → Linked W
  report_linked report status w = record w {
    rest = report status w.rest;
    sent = w.sent ++ outbox (publish_status status w.runtime);
  }

  instance unfoldable pub linked : ⦃env : Env W⦄ → Env (Linked W)
  linked ⦃env = env⦄ = record {
    should_estimate_content_length = λ mode b w. env.should_estimate_content_length mode b w.rest;
    plan_load = λ position_ms offset w. env.plan_load position_ms offset w.rest;
    load = λ request. on_rest (env.load request);
    prepare = λ request. on_rest (env.prepare request);
    activate_prepared = λ autoplay. on_rest (env.activate_prepared autoplay);
    clear_prepared = change_rest env.clear_prepared;
    update_artwork = λ song_id path. on_rest (env.update_artwork song_id path);
    seek = λ position_ms. on_rest (env.seek position_ms);
    current_position_ms = on_rest env.current_position_ms;
    current_stream_info = on_rest env.current_stream_info;
    set_output_device = λ device. on_rest (env.set_output_device device);
    pause = on_rest env.pause;
    resume = on_rest env.resume;
    stop = on_rest env.stop;
    report_state = report_linked env.report_state;
    server_report_state = λ report. change_rest (env.server_report_state report);
    server_clear = change_rest env.server_clear;
    sync_queue = λ status. change_rest (env.sync_queue status);
    drain_events = on_rest env.drain_events;
    save = λ file. change_rest (env.save file);
    now = on_rest env.now;
    spawn_process_native_events_after =
        λ delay. change_rest (env.spawn_process_native_events_after delay);
  }

  -- A method of the runtime, under its lock.
  unfoldable pub on_runtime :
      {A : Type 0} → (ConnectRuntimeInner → A × ConnectRuntimeInner) → Exec (Linked W) A
  on_runtime f = ask λ w. let (a, inner) = f w.runtime in (a, record w { runtime = inner })

  unfoldable pub change_runtime :
      (ConnectRuntimeInner → ConnectRuntimeInner) → Exec (Linked W) (Unit {0})
  change_runtime f = tell λ w. record w { runtime = f w.runtime }

  unfoldable pub read_runtime : {A : Type 0} → (ConnectRuntimeInner → A) → Exec (Linked W) A
  read_runtime f = peek λ w. f w.runtime

  unfoldable pub post : Option Send → Exec (Linked W) (Unit {0})
  post message = tell λ w. record w { sent = w.sent ++ outbox message }

  unfoldable pub emit_state_updated : ConnectStateSnapshot → Exec (Linked W) (Unit {0})
  emit_state_updated snapshot = tell λ w. record w { emitted = w.emitted ++ snapshot ∷ [] }
