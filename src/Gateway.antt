-- ===== src/Gateway.antt =====
-- gateway/src/main.cpp: the MQTT sessions of the gateway, one for each node. What is handed to the
-- MQTT library is an output; what it returns and the events that it reports are inputs.
pub mod Lifecycle
pub mod Pass
pub mod Accepted
pub mod Heard
pub mod Runs
pub mod Reconnect
pub mod Deadline
pub mod Channels
pub mod Poll
pub mod Incoming
pub mod Outgoing
pub mod Loop
pub mod Boot
mod Tests
use climate_node.Common.{
  ℕ, ◌+◌, ◌%◌, ◌^◌, Bool, true, false, List, [], ◌∷◌, ◌==◌, if◌then◌else◌, map,
}
use climate_node.Common.Decimal.{codes}

abbrev pub keepalive_sec : ℕ
keepalive_sec = 60

abbrev pub backoff_min_ms : ℕ
backoff_min_ms = 1000

abbrev pub backoff_max_ms : ℕ
backoff_max_ms = 30000

abbrev pub connack_timeout_ms : ℕ
connack_timeout_ms = 5000

abbrev pub peer_topic_command : List ℕ
peer_topic_command = codes "node/2/command"

abbrev pub peer_topic_telemetry : List ℕ
peer_topic_telemetry = codes "node/2/telemetry"

abbrev pub peer_topic_ack : List ℕ
peer_topic_ack = codes "node/2/ack"

abbrev pub peer_topic_status : List ℕ
peer_topic_status = codes "node/2/status"

pub data SessionState : Type 0 where
  idle connecting serving : SessionState

pub data Qos : Type 0 where
  at_most_once at_least_once : Qos

-- The part of a session that is fixed at startup; `is_peer` tells `sessions[kPeerSession]`.
pub record SessionConfig : Type 0 where
  pub is_peer : Bool
  pub client_id : List ℕ
  pub topic_telemetry : List ℕ
  pub topic_ack : List ℕ
  pub topic_status : List ℕ
  pub command_topics : List (List ℕ)

pub record NodeSession : Type 0 where
  pub config : SessionConfig
  pub next_message_id : ℕ  -- uint16_t
  pub connected : Bool
  pub connect_failed : Bool
  pub state : SessionState
  pub backoff_ms : ℕ  -- int
  pub retry_at : ℕ  -- int64_t
  pub connack_due : ℕ  -- int64_t

abbrev pub own_config : SessionConfig
own_config = record {
  is_peer = false;
  client_id = codes "nucleo-1";
  topic_telemetry = codes "node/1/telemetry";
  topic_ack = codes "node/1/ack";
  topic_status = codes "node/1/status";
  command_topics = codes "node/1/command" ∷ [];
}

abbrev pub peer_config : SessionConfig
peer_config = record {
  is_peer = true;
  client_id = codes "nucleo-2";
  topic_telemetry = peer_topic_telemetry;
  topic_ack = peer_topic_ack;
  topic_status = peer_topic_status;
  command_topics = peer_topic_command ∷ [];
}

-- A session before the first pass of the main loop.
abbrev pub session_at_boot : SessionConfig → NodeSession
session_at_boot c = record {
  config = c;
  next_message_id = 0;
  connected = false;
  connect_failed = false;
  state = idle;
  backoff_ms = backoff_min_ms;
  retry_at = 0;
  connack_due = 0;
}

pub record ConnectParam : Type 0 where
  pub client_id : List ℕ
  pub keepalive : ℕ
  pub clean_session : Bool
  pub will_topic : List ℕ
  pub will_message : List ℕ
  pub will_qos : Qos
  pub will_retain : Bool

pub record PublishParam : Type 0 where
  pub topic : List ℕ
  pub payload : List ℕ
  pub qos : Qos
  pub message_id : ℕ
  pub retain : Bool

-- The calls of the MQTT library.
pub data MqttCall : Type 0 where
  mqtt_connect : ConnectParam → MqttCall
  mqtt_publish : PublishParam → MqttCall
  mqtt_publish_qos1_ack : ℕ → MqttCall
  mqtt_subscribe : ℕ → List (List ℕ × Qos) → MqttCall
  mqtt_disconnect mqtt_abort : MqttCall

-- What `client_setup` puts into the client of what CONNECT carries.
abbrev pub client_setup : SessionConfig → ConnectParam
client_setup c = record {
  client_id = c.client_id;
  keepalive = keepalive_sec;
  clean_session = true;
  will_topic = c.topic_status;
  will_message = codes "offline";
  will_qos = at_least_once;
  will_retain = true;
}

-- The counter after a step, over uint16_t and past 0.
unfoldable pub next_id : ℕ → ℕ
next_id n = let m = (n + 1) % 2 ^ 16 in if m == 0 then 1 else m

unfoldable pub publish : NodeSession → List ℕ → List ℕ → Qos → Bool → MqttCall × NodeSession
publish s topic payload at_most_once retain = (
  mqtt_publish (record {
    topic = topic;
    payload = payload;
    qos = at_most_once;
    message_id = 0;
    retain = retain;
  }),
  s,
)
publish s topic payload at_least_once retain = (
  mqtt_publish (record {
    topic = topic;
    payload = payload;
    qos = at_least_once;
    message_id = next_id s.next_message_id;
    retain = retain;
  }),
  record s { next_message_id = next_id s.next_message_id },
)

abbrev pub subscribe_to_commands : NodeSession → MqttCall
subscribe_to_commands s = mqtt_subscribe 1 (map (λ t. (t, at_least_once)) s.config.command_topics)
