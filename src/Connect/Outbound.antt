-- ===== src/Connect/Outbound.antt =====
-- What `ConnectRuntime` sends (src-tauri/src/connect.rs): reports of the playback state, and commands.
use transonic.Prelude.{
  ℕ, ◌-◌, String, Bool, true, false, not, ◌&&◌, ◌||◌, Option, none, some, List, [], ◌∷◌, is_some,
  is_empty, ltb, ◌==◌, str_eq, if◌then◌else◌,
}
use mathlib.Core.Option
use transonic.Result.{Result, ok, err}
use transonic.Models.{PlaybackStatus}
use transonic.Text.{trim}
use transonic.Controller.Helpers.{option_str_eq}
use transonic.Connect.State.{
  ConnectDevicePresence, ConnectSharedPlaybackState, ConnectPlaybackCommand, ConnectOutbound,
  playback_report, envelope, PendingAndroidResumeReport, ConnectRuntimeInner, from_status,
  command_of,
}
use transonic.Connect.Gate.{is_closed, is_awaiting_choice}
use transonic.Connect.Runtime.{android_resume_report_max_age}

-- A message, and the connection that it is handed to.
abbrev pub Send : Type 0
Send = ℕ × ConnectOutbound

abbrev pub report_to : Option ℕ → ℕ → PlaybackStatus → Option Send
report_to none base_seq status = none
report_to (some sender) base_seq status =
    some (sender, playback_report base_seq (from_status status))

unfoldable pub publish_status : PlaybackStatus → ConnectRuntimeInner → Option Send
publish_status status inner =
    if not inner.status.connected || is_some inner.applying_shared_seq || is_closed inner.queue_gate
    then none
    else elim inner.shared_playback [
      | none ↦ none
      | some shared ↦ elim inner.device_id [
        | none ↦ none
        | some device_id ↦
            if option_str_eq shared.active_device_id (some device_id)
            then report_to inner.sender shared.seq status
            else none
      ]
    ]

-- The own state that is to be claimed again, while no device is active.
abbrev pub is_own_offline : ConnectSharedPlaybackState → String → Bool
is_own_offline shared device_id =
    not (is_some shared.active_device_id)
    && option_str_eq shared.updated_by_device_id (some device_id)

unfoldable pub should_preserve_pending_android_resume_snapshot :
    ℕ → ℕ → ConnectSharedPlaybackState → ConnectRuntimeInner → Bool
should_preserve_pending_android_resume_snapshot now generation shared inner =
    if not (inner.generation == generation)
    then false
    else elim inner.pending_android_resume_report [
      | none ↦ false
      | some pending ↦
          if ltb android_resume_report_max_age (now - pending.captured_at)
          then false
          else elim inner.device_id [
            | none ↦ false
            | some device_id ↦ pending.allow_active_claim && is_own_offline shared device_id
          ]
    ]

abbrev pub flush_to :
    PendingAndroidResumeReport
    → ℕ
    → String
    → ConnectSharedPlaybackState
    → ConnectRuntimeInner
    → Option Send × ConnectRuntimeInner
flush_to pending sender device_id shared inner =
    if option_str_eq shared.active_device_id (some device_id)
      || (pending.allow_active_claim && is_own_offline shared device_id)
    then (
      some (sender, playback_report shared.seq pending.state),
      record inner { pending_android_resume_report = none },
    )
    else (none, inner)

unfoldable pub flush_pending_android_resume_report :
    ℕ → ℕ → ConnectRuntimeInner → Option Send × ConnectRuntimeInner
flush_pending_android_resume_report now generation inner =
    if not (inner.generation == generation)
    then (none, inner)
    else elim inner.pending_android_resume_report [
      | none ↦ (none, inner)
      | some pending ↦
          if ltb android_resume_report_max_age (now - pending.captured_at)
          then (none, record inner { pending_android_resume_report = none })
          else if not inner.status.connected || is_closed inner.queue_gate
          then (none, inner)
          else elim inner.sender [
            | none ↦ (none, inner)
            | some sender ↦ elim inner.device_id [
              | none ↦ (none, inner)
              | some device_id ↦ elim inner.shared_playback [
                | none ↦ (none, inner)
                | some shared ↦ flush_to pending sender device_id shared inner
              ]
            ]
          ]
    ]

abbrev pub not_connected : String
not_connected = "connect: websocket is not connected"

abbrev pub is_online : List ConnectDevicePresence → String → Bool
is_online [] target = false
is_online (device ∷ devices) target =
    (str_eq device.device_id target && device.online) || is_online devices target

unfoldable pub validate_transfer_playback_target : ConnectRuntimeInner → String → Result (Unit {0})
validate_transfer_playback_target inner target =
    if str_eq target ""
    then err "connect: transfer target device is unavailable"
    else if not inner.status.connected
    then err not_connected
    else if not (is_online inner.devices target)
    then err "connect: target device is offline"
    else elim inner.shared_playback [
      | none ↦ err "connect: shared playback state is unavailable"
      | some shared ↦
          if option_str_eq shared.active_device_id (some target)
          then err "connect: target device is already active"
          else if is_empty shared.state.queue
          then err "connect: playback queue is empty"
          else ok tt
    ]

abbrev pub base_seq_of : Option ConnectSharedPlaybackState → ℕ
base_seq_of none = 0
base_seq_of (some shared) = shared.seq

-- The command with its id and the seq that it starts from.
abbrev pub stamped : ConnectPlaybackCommand → String → ℕ → ConnectPlaybackCommand
stamped command command_id base_seq = record command {
  command_id = some command_id;
  base_seq = some base_seq;
}

-- `send_playback_command`: what is sent, unless the result is an error before that, or `Ok(false)`.
-- `fresh_id` is the id for a command without one; `is_open` says whether the writer of the connection
-- still receives, without which sending fails.
unfoldable pub send_playback_command :
    String → (ℕ → Bool) → ConnectPlaybackCommand → ConnectRuntimeInner → Result Bool × Option Send
send_playback_command fresh_id is_open command inner =
    if not inner.status.connected
    then (ok false, none)
    else if is_awaiting_choice inner.queue_gate
    then (ok false, none)
    else elim inner.sender [
      | none ↦ (err not_connected, none)
      | some sender ↦
          let command_id = Option.get_or command.command_id fresh_id in
          let message = envelope (record {
            id = some command_id;
            message_type = "playback.command.request";
            payload = stamped command command_id (base_seq_of inner.shared_playback);
          }) in
          if is_open sender
          then (ok true, some (sender, message))
          else (err "connect: websocket writer is not available", none)
    ]

abbrev pub sent_or_error : Result Bool → Result (Unit {0})
sent_or_error (ok true) = ok tt
sent_or_error (ok false) = err not_connected
sent_or_error (err e) = err e

unfoldable pub request_transfer_playback :
    String → (ℕ → Bool) → String → ConnectRuntimeInner → Result (Unit {0}) × Option Send
unfolding send_playback_command
request_transfer_playback fresh_id is_open target_device_id inner =
    let target = trim target_device_id in
    elim (validate_transfer_playback_target inner target) [
      | err e ↦ (err e, none)
      | ok _ ↦
          let (result, sent) =
            send_playback_command fresh_id is_open
              (record (command_of "transferPlayback") { target_device_id = some target }) inner in
          (sent_or_error result, sent)
    ]
