-- ===== src/Gateway/Outgoing.antt =====
-- The publishing stage of the main loop of gateway/src/main.cpp: what the sensor thread and the relay
-- left on their channels goes to the broker. An event counter that cannot be read has nothing new.
pub mod Stages
use climate_node.Common.{
  ℕ, Bool, true, false, ◌&&◌, List, [], ◌∷◌, ◌++◌, Option, none, some, ◌==◌, if◌then◌else◌, length,
}
use climate_node.Zephyr.{Rc, success, is_success}
use climate_node.AppChannels.{SensorReading}
use climate_node.Protocol.{Nanopb, encode_telemetry}
use climate_node.Relay.{RelayUp, RelayStatus}
use climate_node.Gateway.{
  peer_topic_telemetry, peer_topic_ack, peer_topic_status, Qos, at_most_once, at_least_once,
  NodeSession, MqttCall, publish,
}
use climate_node.Gateway.Lifecycle.{status_text, session_drop, is_serving}

-- What a stage sees: whether its descriptor was polled and is readable, whether its counter can be
-- read, the channel's value, what `mqtt_publish` returns, and the uptime of a drop.
pub record Slot (A : Type 0) : Type 0 where
  pub ready : Bool
  pub signalled : Bool
  pub value : Option A
  pub rc : Rc
  pub noted : ℕ

-- The calls, the session and the result; a channel that cannot be read has nothing to send.
abbrev pub Sent : Type 0
Sent = List MqttCall × NodeSession × Rc

abbrev pub send : MqttCall × NodeSession → Rc → Sent
send (c, s) rc = (c ∷ [], s, rc)

abbrev pub if_read : {A : Type 0} → Slot A → NodeSession → (A → Sent) → Option A → Sent
if_read x s f none = ([], s, success)
if_read x s f (some a) = f a

unfoldable pub when_signalled : {A : Type 0} → Slot A → NodeSession → (A → Sent) → Sent
when_signalled x s f = if x.signalled then if_read x s f x.value else ([], s, success)

unfoldable pub publish_pending_telemetry : Nanopb → Slot SensorReading → NodeSession → Sent
publish_pending_telemetry pb x s = when_signalled x s (λ reading.
    let payload = encode_telemetry pb reading pb.telemetry_size in
    if length payload == 0
    then ([], s, success)
    else send (publish s s.config.topic_telemetry payload at_most_once false) x.rc)

unfoldable pub publish_relayed : List ℕ → Qos → Slot RelayUp → NodeSession → Sent
publish_relayed topic qos x s =
    when_signalled x s (λ up. send (publish s topic up.bytes qos false) x.rc)

unfoldable pub publish_relayed_status : Slot RelayStatus → NodeSession → Sent
publish_relayed_status x s =
    when_signalled x s
      (λ st. send (publish s peer_topic_status (status_text st.online) at_least_once true) x.rc)

-- A publish is tried only on a serving session, and one that fails drops it.
unfoldable pub stage :
    {A : Type 0}
    → (Slot A → NodeSession → Sent)
    → Slot A
    → NodeSession
    → List MqttCall × NodeSession
stage f x s =
    let (calls, s', rc) = f x s in
    let (more, s'') = session_drop s' true x.noted in
    if x.ready && is_serving s.state
    then (if is_success rc then (calls, s') else (calls ++ more, s''))
    else ([], s)

unfoldable pub publish_own : Nanopb → Slot SensorReading → NodeSession → List MqttCall × NodeSession
publish_own pb = stage (publish_pending_telemetry pb)

pub record PeerSlots : Type 0 where
  pub telemetry : Slot RelayUp
  pub ack : Slot RelayUp
  pub status : Slot RelayStatus

unfoldable pub publish_peer : PeerSlots → NodeSession → List MqttCall × NodeSession
publish_peer x s =
    let (c1, s1) = stage (publish_relayed peer_topic_telemetry at_most_once) x.telemetry s in
    let (c2, s2) = stage (publish_relayed peer_topic_ack at_least_once) x.ack s1 in
    let (c3, s3) = stage publish_relayed_status x.status s2 in (c1 ++ (c2 ++ c3), s3)
