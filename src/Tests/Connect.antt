-- ===== src/Tests/Connect.antt =====
-- The theorems on Connect, at one connection with three songs.
use transonic.Prelude.{◌≡◌, ◌↔◌, refl, arith, String, true, false, none, some, List, [], ◌∷◌}
use transonic.Result.{ok}
use transonic.Models.{SongResponse, PlaybackStatus, ConnectPlaybackState, empty_status}
use transonic.Controller.Exec.{Machine}
use transonic.Connect.State.{
  ConnectRuntimeInner, default_inner, default_status, ConnectSharedPlaybackState, from_status,
  QueueGate, opened, awaiting_choice, pushing, playback_report, ask_user, push_local,
}
use transonic.Connect.Gate.{is_closed, queue_ids, classify_initial_snapshot}
use transonic.Connect.Runtime.{begin_restart}
use transonic.Connect.Outbound.{Send}
use transonic.Connect.Link.{Linked, linked, ConnectEnv}
use transonic.Connect.Incoming.{
  handle_incoming_message, shared_playback, ConnectMessage, end_run, run_restart,
  apply_shared_playback_state, push_local_state,
}
use transonic.Connect.Methods.{Method, perform, perform_all, ends_connection}
use transonic.Connect.Methods.GateMachine.{GateStep, perform-GateStep}
use transonic.Connect.Methods.Sequence.{IsConsistent, NotOlder, perform_all-NotOlder}
use transonic.Connect.Echoes.{NothingSent, apply_shared_playback_state-NothingSent}
use transonic.Connect.Held.{handle_incoming_message-Unmoved}
use transonic.Connect.Pushes.{Pushed, push_local_state-Pushed}
use transonic.Connect.Generations.{Ended, end_run-Ended, begin_restart-stale}
use transonic.Connect.FirstSnapshot.{classify_initial_snapshot_iff}
use transonic.Connect.Urls.{UrlOps, normalize_connect_server_url}
use transonic.Connect.Urls.Safety.{
  IsAlike, KeepsParts, IsTextOfSafe, normalize_connect_server_url-IsSafe,
}
use transonic.Text.{trim}
use transonic.Tests.{songs, quiet, client, started_machine}

abbrev connect_env : ConnectEnv (Unit {0})
connect_env = record {
  active_profile_id = λ _. some "p";
  active_runtime_parts = λ _. ok client;
  new_uuid = λ w. ("1", w);
  write = λ _ w. (ok tt, w);
  is_open = λ _ _. true;
}

abbrev local_state : ConnectPlaybackState
local_state = record {
  playing_state = transonic.Models.stopped;
  queue = songs;
  current_index = some 0;
  play_next_queue_len = 0;
  current_position_ms = 0;
  current_song_id = some "a";
  queue_revision = 1;
  queue_index_map = [];
}

abbrev shared : ConnectSharedPlaybackState
shared = record {
  seq = 5;
  active_device_id = some "d";
  state = local_state;
  updated_at = "t";
  updated_by_device_id = some "d";
  update_reason = some "push";
}

-- A runtime that is connected as device "d", with the given gate.
abbrev connected : QueueGate → ConnectRuntimeInner
connected gate = record default_inner {
  generation = 1;
  status = record default_status {
    enabled = true;
    connected = true;
    device_id = some "d";
    seq = 4;
  };
  sender = some 0;
  device_id = some "d";
  shared_playback = some (record shared { seq = 4; update_reason = some "snapshot" });
  queue_gate = gate;
}

abbrev machine : QueueGate → Machine (Linked (Unit {0}))
machine gate = record {
  controller = started_machine.controller;
  world = record { runtime = connected gate; sent = []; emitted = []; rest = tt };
}

-- The echo of a push.
abbrev echo : ConnectMessage
echo = shared_playback "playback.shared.updated" shared

handle_incoming_message-Unmoved_example :
    (handle_incoming_message ⦃env = quiet⦄ ⦃connect = connect_env⦄ 1 echo
      (machine (pushing "pushState" true))).1.controller
    ≡ started_machine.controller
handle_incoming_message-Unmoved_example =
    handle_incoming_message-Unmoved ⦃env = quiet⦄ ⦃connect = connect_env⦄
      (machine (pushing "pushState" true)) 1 echo (unfold is_closed in refl)

apply_shared_playback_state-NothingSent_example :
    NothingSent []
      (apply_shared_playback_state ⦃env = quiet⦄ ⦃connect = connect_env⦄ 1 shared false
        (machine opened)).1.world
apply_shared_playback_state-NothingSent_example =
    apply_shared_playback_state-NothingSent ⦃env = quiet⦄ ⦃connect = connect_env⦄ (machine opened) 1
      shared false refl

perform-GateStep_example :
    GateStep
      (connected (pushing "1" true)).generation
      (connected (pushing "1" true)).device_id
      (Method.fail_push "1" "no")
      (pushing "1" true)
      (perform (Method.fail_push "1" "no") (connected (pushing "1" true))).queue_gate
perform-GateStep_example =
    perform-GateStep (Method.fail_push "1" "no") (connected (pushing "1" true))

abbrev methods : List Method
methods =
    Method.set_shared_playback 1 shared
    ∷ Method.begin_queue_resolution 1
    ∷ Method.begin_push "1" true
    ∷ []

perform_all-NotOlder_example :
    IsConsistent (perform_all methods (connected opened))
    × NotOlder
        (connected opened).shared_playback
        (perform_all methods (connected opened)).shared_playback
unfolding ends_connection
perform_all-NotOlder_example =
    perform_all-NotOlder methods (connected opened) (refl, refl) (refl, (refl, (refl, tt)))

push_local_state-Pushed_example :
    let out =
      push_local_state ⦃env = quiet⦄ ⦃connect = connect_env⦄ local_state true
        (machine (awaiting_choice none)) in
    Pushed (machine (awaiting_choice none)) local_state out.0 out.1
push_local_state-Pushed_example =
    push_local_state-Pushed ⦃env = quiet⦄ ⦃connect = connect_env⦄ (machine (awaiting_choice none))
      local_state none refl

end_run-Ended_example : Ended ⦃env = quiet⦄ ⦃connect = connect_env⦄ (machine (pushing "1" true)) (
    end_run ⦃env = quiet⦄ ⦃connect = connect_env⦄ 1
      (some "u")
      (ok run_restart)
      (machine (pushing "1" true)))
end_run-Ended_example =
    end_run-Ended ⦃env = quiet⦄ ⦃connect = connect_env⦄ (machine (pushing "1" true)) 1 (some "u")
      (ok run_restart) refl

begin_restart-stale_example :
    let restarted = (begin_restart (connected (pushing "1" true))).1 in
    (restarted.queue_gate ≡ opened)
    × (restarted.status.connected ≡ false)
    × (restarted.shared_playback ≡ none)
    × (perform (Method.set_shared_playback 1 shared) restarted ≡ restarted)
begin_restart-stale_example =
    begin_restart-stale (Method.set_shared_playback 1 shared) (connected (pushing "1" true))
      (omega arith) refl

abbrev sent_report : Send
sent_report = (0, playback_report 4 (from_status empty_status))

abbrev no_songs : List SongResponse
no_songs = []

classify_initial_snapshot_iff_example :
    let action = classify_initial_snapshot songs no_songs (some []) in
    let synced_copy : Type 0 = some [] ≡ some (queue_ids songs) in
    ((action ≡ ask_user) ↔ (
      (¬ (songs ≡ []))
      × (¬ synced_copy)
      × (¬ (no_songs ≡ []))
      × (¬ (queue_ids songs ≡ queue_ids no_songs))))
    × ((action ≡ push_local) ↔ ((¬ (songs ≡ [])) × (¬ synced_copy) × (no_songs ≡ [])))
classify_initial_snapshot_iff_example = classify_initial_snapshot_iff songs no_songs (some [])

-- URLs whose texts are all of one kind.
abbrev https_only : UrlOps String
https_only = record {
  parse = λ s. some s;
  username = λ _. "";
  password = λ _. none;
  scheme = λ _. "https";
  host_str = λ _. some "example.org";
  path = λ _. "/";
  as_str = λ s. s;
  set_path = λ _ s. s;
  clear_query = λ s. s;
  clear_fragment = λ s. s;
  set_port = λ _ s. some s;
  set_scheme = λ _ s. some s;
}

abbrev server_url : String
server_url = "https://example.org"

all-IsAlike : (u v : String) → IsAlike https_only u v
all-IsAlike u v = record {
  has_scheme = refl;
  has_username = refl;
  has_password = refl;
  has_host = refl;
}

https_only_keeps : KeepsParts https_only
https_only_keeps = record {
  set_path_keeps = λ path u. all-IsAlike u u;
  clear_query_keeps = λ u. all-IsAlike u u;
  clear_fragment_keeps = λ u. all-IsAlike u u;
  set_port_keeps = λ port u v e. all-IsAlike u v;
}

normalize_connect_server_url-IsSafe_example :
    (parsed : String) × (https_only.parse (trim server_url) ≡ some parsed)
    × IsTextOfSafe https_only false parsed server_url
unfolding trim
normalize_connect_server_url-IsSafe_example =
    normalize_connect_server_url-IsSafe https_only https_only_keeps server_url false none server_url
      (unfold normalize_connect_server_url in refl)
