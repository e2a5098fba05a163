-- ===== src/Gateway/Loop/Sample.antt =====
-- Concrete inputs and states of the main loop of gateway/src/main.cpp.
use climate_node.Common.{true, false, none, [], ◌∷◌}
use climate_node.Zephyr.{success}
use climate_node.AppChannels.{empty_reading}
use climate_node.Commands.{no_command_yet}
use climate_node.Commands.Sample.{node_two}
use climate_node.Protocol.Plain.{plain}
use climate_node.Relay.{RelayUp}
use climate_node.Gateway.{serving, session_at_boot, own_config, peer_config}
use climate_node.Gateway.Lifecycle.{SessionInput, connack}
use climate_node.Gateway.Channels.{Channel}
use climate_node.Gateway.Loop.{Channels, no_news, session_evt, StageInput, LoopInput, World}

abbrev pub quiet_stage : StageInput
quiet_stage = record { can_read = true; rc = success; noted = 120 }

abbrev pub quiet_session : SessionInput
quiet_session = record {
  now = 100;
  connect_rc = success;
  connect_noted = 110;
  readable = true;
  events = [];
  input_rc = success;
  input_noted = 115;
  later = 118;
  status = none;
  serving_events = [];
  live_rc = success;
  drop_noted = 120;
}

abbrev pub silent : {A : Type 0} → A → Channel A
silent a = record { value = a; events = 0; has_fd = true }

abbrev pub no_payload : RelayUp
no_payload = record { node_id = 0; len = 0; bytes = [] }

abbrev pub silent_channels : Channels
silent_channels = record {
  telemetry = silent empty_reading;
  relay_telemetry = silent no_payload;
  relay_ack = silent no_payload;
  relay_status = silent (record { node_id = 0; online = false });
}

-- A pass in which both sessions connect and the broker accepts both, while the peer's node comes
-- online.
abbrev pub accepted_pass : LoopInput
accepted_pass = record {
  own = quiet_session;
  peer = quiet_session;
  own_events = session_evt (connack success) ∷ [];
  peer_events = session_evt (connack success) ∷ [];
  news = record no_news { relay_status = record { node_id = 2; online = true } ∷ [] };
  polls = true;
  late_news = no_news;
  can_read_status = true;
  telemetry = quiet_stage;
  relay_telemetry = quiet_stage;
  relay_ack = quiet_stage;
  relay_status = quiet_stage;
}

-- Both sessions serve, and no message is on a channel.
abbrev pub serving_world : World node_two plain
serving_world = record {
  sessions = record {
    own = record (session_at_boot own_config) { state = serving; connected = true };
    peer = record (session_at_boot peer_config) { state = serving; connected = true };
  };
  channels = silent_channels;
  dedupe = no_command_yet;
  bus = [];
}
