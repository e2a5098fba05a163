-- ===== src/Gateway/Loop/Policy.antt =====
-- How each kind of message goes out of gateway/src/main.cpp: its topic, its QoS, its packet
-- identifier and whether it is retained.
pub mod Sessions
pub mod Incoming
pub mod Publishing
pub mod Held
pub mod Parts
pub mod Runs
use climate_node.Common.{
  ℕ, ◌≤◌, ◌<◌, ◌^◌, ◌≡◌, ◌⊎◌, inl, inr, refl, Bool, true, false, List, Option, arith,
}
use climate_node.Common.Decimal.{codes}
use climate_node.Gateway.{
  peer_topic_telemetry, peer_topic_ack, peer_topic_status, at_most_once, at_least_once,
  SessionConfig, own_config, peer_config, PublishParam, MqttCall, mqtt_connect, mqtt_publish,
  mqtt_publish_qos1_ack, mqtt_subscribe, mqtt_disconnect, mqtt_abort, next_id,
}
use climate_node.Gateway.Incoming.{Act, call, hand_over}
use climate_node.Gateway.Lifecycle.{status_text}
use climate_node.AppChannels.{SensorReading}
use climate_node.Commands.{AckStatus, DeviceInfo}
use climate_node.Protocol.{Nanopb, encode_telemetry, encode_ack}
use climate_node.Relay.{RelayUp}

-- What MQTT asks of an identifier: a nonzero number of 16 bits.
abbrev pub IsPacketId : ℕ → Type 0
IsPacketId id = (1 ≤ id) × (id < 2 ^ 16)

abbrev pub IsTelemetryTopic : List ℕ → Type 0
IsTelemetryTopic t = (t ≡ codes "node/1/telemetry") ⊎ (t ≡ peer_topic_telemetry)

abbrev pub IsAckTopic : List ℕ → Type 0
IsAckTopic t = (t ≡ codes "node/1/ack") ⊎ (t ≡ peer_topic_ack)

abbrev pub IsStatusTopic : List ℕ → Type 0
IsStatusTopic t = (t ≡ codes "node/1/status") ⊎ (t ≡ peer_topic_status)

-- Of the messages on the channels: what is claimed of each kind, whatever it is.
pub record Kinds : Type 1 where
  pub reading : SensorReading → Type 0
  pub telemetry : RelayUp → Type 0
  pub ack : RelayUp → Type 0

module _ (pb : Nanopb) (kinds : Kinds) where
  -- What goes out on a topic, and where it is from: an encoded reading of this node, or, on the
  -- peer's topic, the bytes of a relayed reading.
  abbrev pub TelemetryOn : List ℕ → List ℕ → Type 0
  TelemetryOn topic payload =
      (IsTelemetryTopic topic
        × (r : SensorReading) × kinds.reading r
        × (payload ≡ encode_telemetry pb r pb.telemetry_size))
      ⊎ ((topic ≡ peer_topic_telemetry)
          × (up : RelayUp) × kinds.telemetry up
          × (payload ≡ up.bytes))

  -- An Ack that the gateway encodes, or the bytes of a relayed one.
  abbrev pub AckOn : List ℕ → List ℕ → Type 0
  AckOn topic payload =
      (IsAckTopic topic
        × (seq : ℕ) × (status : AckStatus) × (detail : Option (List ℕ)) × (info : Option DeviceInfo)
        × (payload ≡ encode_ack pb seq status detail info pb.ack_size))
      ⊎ ((topic ≡ peer_topic_ack) × (up : RelayUp) × kinds.ack up × (payload ≡ up.bytes))

  abbrev pub StatusOn : List ℕ → List ℕ → Type 0
  StatusOn topic payload = IsStatusTopic topic × (online : Bool) × (payload ≡ status_text online)

  abbrev pub IsTelemetry : PublishParam → Type 0
  IsTelemetry p =
      TelemetryOn p.topic p.payload
      × (p.qos ≡ at_most_once)
      × (p.retain ≡ false)
      × (p.message_id ≡ 0)

  abbrev pub IsAck : PublishParam → Type 0
  IsAck p =
      AckOn p.topic p.payload
      × (p.qos ≡ at_least_once)
      × (p.retain ≡ false)
      × IsPacketId p.message_id

  abbrev pub IsStatus : PublishParam → Type 0
  IsStatus p =
      StatusOn p.topic p.payload
      × (p.qos ≡ at_least_once)
      × (p.retain ≡ true)
      × IsPacketId p.message_id

  -- A reading goes out at most once and is not retained; an Ack at least once and is not retained; a
  -- status at least once and is retained, and so is the will; and identifiers are what MQTT asks.
  abbrev pub Follows : MqttCall → Type 0
  Follows (mqtt_connect c) =
      IsStatusTopic c.will_topic × (c.will_qos ≡ at_least_once) × (c.will_retain ≡ true)
  Follows (mqtt_publish p) = IsTelemetry p ⊎ IsAck p ⊎ IsStatus p
  Follows (mqtt_publish_qos1_ack id) = Unit {0}
  Follows (mqtt_subscribe id topics) = IsPacketId id
  Follows mqtt_disconnect = Unit {0}
  Follows mqtt_abort = Unit {0}

  abbrev pub FollowsAct : Act → Type 0
  FollowsAct (call which c) = Follows c
  FollowsAct (hand_over down) = Unit {0}

abbrev pub HasTopics : SessionConfig → Type 0
HasTopics c =
    IsTelemetryTopic c.topic_telemetry × IsAckTopic c.topic_ack × IsStatusTopic c.topic_status

pub own_config-HasTopics : HasTopics own_config
own_config-HasTopics = (inl refl, inl refl, inl refl)

pub peer_config-HasTopics : HasTopics peer_config
peer_config-HasTopics = (inr refl, inr refl, inr refl)

pub IsPacketId-next_id : (n : ℕ) → IsPacketId (next_id n)
unfolding next_id
IsPacketId-next_id n = ground arith
