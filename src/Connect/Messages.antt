-- ===== src/Connect/Messages.antt =====
-- The envelopes of the messages to the Connect server (src-tauri/src/connect.rs).
use Prim.Native.String.{[], ◌∷◌, ◌++◌}
use transonic.Prelude.{ℕ, String, Option, none, some, str_eq, if◌then◌else◌}
use transonic.Models.{ConnectPlaybackState}
use transonic.Connect.State.{ConnectPlaybackCommand, ConnectOutbound, playback_report, envelope}

abbrev pub connect_protocol_version : ℕ
connect_protocol_version = 3

-- `s.replace('.', "-")`.
dots_replaced : String → String
dots_replaced [] = []
dots_replaced (c ∷ s) =
    let rest = dots_replaced s in if str_eq (c ∷ []) "." then "-" ++ rest else c ∷ rest

-- `uuid` is the text of `Uuid::new_v4`.
unfoldable pub connect_message_id : String → String → String
unfolding dots_replaced
connect_message_id message_type uuid = dots_replaced message_type ++ "-" ++ uuid

pub data ConnectPayload : Type 0 where
  report_payload : ℕ → ConnectPlaybackState → ConnectPayload
  command_payload : ConnectPlaybackCommand → ConnectPayload
  empty_payload : ConnectPayload

pub record ConnectEnvelope : Type 0 where
  pub id : Option String
  pub message_type : String
  pub protocol_version : ℕ
  pub device_id : String
  pub payload : ConnectPayload

-- The message of what a writer receives; `uuid` is for a report, which has no identifier yet.
unfoldable pub envelope_of : String → String → ConnectOutbound → ConnectEnvelope
unfolding connect_message_id
envelope_of uuid device_id (playback_report base_seq state) = record {
  id = some (connect_message_id "playback-report" uuid);
  message_type = "playback.report";
  protocol_version = connect_protocol_version;
  device_id = device_id;
  payload = report_payload base_seq state;
}
envelope_of uuid device_id (envelope outbound) = record {
  id = outbound.id;
  message_type = outbound.message_type;
  protocol_version = connect_protocol_version;
  device_id = device_id;
  payload = command_payload outbound.payload;
}

unfoldable pub heartbeat_envelope : String → ConnectEnvelope
heartbeat_envelope device_id = record {
  id = none;
  message_type = "presence.heartbeat";
  protocol_version = connect_protocol_version;
  device_id = device_id;
  payload = empty_payload;
}
