-- ===== src/Gateway/Loop/Inputs.antt =====
-- What a pass of the loop in `main` of gateway/src/main.cpp comes upon: the channels that it reads,
-- and what the clock, the MQTT library, the kernel and the other threads do in it.
use climate_node.Common.{ℕ, Bool, List, []}
use climate_node.Zephyr.{Rc}
use climate_node.AppChannels.{SensorReading}
use climate_node.Relay.{RelayUp, RelayStatus}
use climate_node.Gateway.Lifecycle.{Evt, SessionInput}
use climate_node.Gateway.Incoming.{Drained, PublishEvt}
use climate_node.Gateway.Channels.{Channel, chan_pubs}

pub record Channels : Type 0 where
  pub telemetry : Channel SensorReading
  pub relay_telemetry : Channel RelayUp
  pub relay_ack : Channel RelayUp
  pub relay_status : Channel RelayStatus

-- What the other threads publish in some while, oldest first.
pub record News : Type 0 where
  pub telemetry : List SensorReading
  pub relay_telemetry : List RelayUp
  pub relay_ack : List RelayUp
  pub relay_status : List RelayStatus

abbrev pub no_news : News
no_news = record { telemetry = []; relay_telemetry = []; relay_ack = []; relay_status = [] }

unfoldable pub arrive : News → Channels → Channels
arrive n c = record {
  telemetry = chan_pubs n.telemetry c.telemetry;
  relay_telemetry = chan_pubs n.relay_telemetry c.relay_telemetry;
  relay_ack = chan_pubs n.relay_ack c.relay_ack;
  relay_status = chan_pubs n.relay_status c.relay_status;
}

-- An event of `mqtt_input`. A PUBLISH comes with the bytes kept of its payload, or a failure to read
-- it, and with what handing a command to the relay returns.
pub data Event : Type 0 where
  session_evt : Evt → Event
  message : PublishEvt → Drained (List ℕ) → Rc → Event

-- Of a publishing stage: whether the channel can be read, what `mqtt_publish` returns, and the uptime
-- of a drop.
pub record StageInput : Type 0 where
  pub can_read : Bool
  pub rc : Rc
  pub noted : ℕ

-- The `events` of the two sessions' inputs are not used here: `own_events` and `peer_events` are.
pub record LoopInput : Type 0 where
  pub own : SessionInput
  pub peer : SessionInput
  pub own_events : List Event
  pub peer_events : List Event
  pub news : News  -- before `zsock_poll` returns
  pub polls : Bool  -- whether it returns without an error
  pub late_news : News  -- after it
  pub can_read_status : Bool  -- in `session_serving`
  pub telemetry : StageInput
  pub relay_telemetry : StageInput
  pub relay_ack : StageInput
  pub relay_status : StageInput
