-- ===== src/Gateway/Incoming.antt =====
-- `handle_incoming_publish` of gateway/src/main.cpp and what it calls: a PUBLISH from the broker is
-- read, acknowledged, and carried out or handed to the relay.
pub mod Draining
pub mod Answers
pub mod Routes
mod Tests
use climate_node.Common.{
  ℕ, zero, suc, ◌-◌, ◌%◌, ◌^◌, min, Bool, true, false, ◌&&◌, List, [], ◌∷◌, ◌++◌, Option, none,
  some, ltb, ◌==◌, if◌then◌else◌, length,
}
use climate_node.Common.Decimal.{codes}
use climate_node.Zephyr.{Rc, is_success}
use climate_node.CanLink.{first_peer_node_id}
use climate_node.Commands.{
  Node, Command, CommandResult, DeviceInfo, AckStatus, failed, malformed, Dedupe, handle_command,
}
use climate_node.Protocol.{Nanopb, encode_ack, decode_command}
use climate_node.Relay.{RelayDown, relay_down_max}
use climate_node.Gateway.{
  peer_topic_command, peer_topic_ack, Qos, at_most_once, at_least_once, NodeSession, MqttCall,
  mqtt_publish_qos1_ack, publish,
}

-- The same length and the same bytes.
unfoldable pub topic_is : List ℕ → List ℕ → Bool
topic_is [] [] = true
topic_is [] (y ∷ ys) = false
topic_is (x ∷ xs) [] = false
topic_is (x ∷ xs) (y ∷ ys) = x == y && topic_is xs ys

-- `mqtt_readall_publish_payload` of the MQTT library: so many bytes, none when it fails.
pub record Reader : Type 1 where
  pub Stream : Type 0
  pub readall : ℕ → Stream → Option (List ℕ × Stream)

pub data Drained (A : Type 0) : Type 0 where
  drained : A → Drained A
  read_failed : Drained A

-- After a read that fails, the function returns.
abbrev pub and_then : {A B : Type 0} → Option A → (A → Drained B) → Drained B
and_then none f = read_failed
and_then (some a) f = f a

abbrev pub kept_with : {A B : Type 0} → A → Drained B → Drained (A × B)
kept_with a read_failed = read_failed
kept_with a (drained b) = drained (a, b)

module _ (m : Reader) where
  unfoldable pub drain_with : ℕ → ℕ → m.Stream → Drained m.Stream
  drain_with fuel zero st = drained st
  drain_with zero (suc n) st = read_failed
  drain_with (suc fuel) (suc n) st =
      and_then (m.readall (min (suc n) 64) st) (λ r. drain_with fuel (suc n - min (suc n) 64) r.1)

  -- The loop takes a byte or more a turn, so that as much fuel as there are bytes is enough.
  unfoldable pub drain : ℕ → m.Stream → Drained m.Stream
  drain remaining st = drain_with remaining remaining st

  -- The bytes kept and the stream after the whole payload, or a failure.
  unfoldable pub read_payload : ℕ → m.Stream → Drained (List ℕ × m.Stream)
  read_payload len st =
      and_then (m.readall (min len 128) st) (λ r. kept_with r.0 (drain (len - min len 128) r.1))

-- The two sessions; the index true is `kPeerSession`.
pub record Sessions : Type 0 where
  pub own : NodeSession
  pub peer : NodeSession

abbrev pub session_of : Bool → Sessions → NodeSession
session_of true ss = ss.peer
session_of false ss = ss.own

abbrev pub with_session : Bool → NodeSession → Sessions → Sessions
with_session true s ss = record ss { peer = s }
with_session false s ss = record ss { own = s }

-- What goes out: a call of the MQTT library for a session, or a command queued for the relay.
pub data Act : Type 0 where
  call : Bool → MqttCall → Act
  hand_over : RelayDown → Act

pub record PublishEvt : Type 0 where
  pub topic : List ℕ
  pub qos : Qos
  pub message_id : ℕ
  pub len : ℕ

module _ (n : Node) (pb : Nanopb) where
  unfoldable pub publish_ack :
      Bool
      → List ℕ
      → ℕ
      → AckStatus
      → Option (List ℕ)
      → Option DeviceInfo
      → Sessions
      → List Act × Sessions
  publish_ack which topic seq status detail info ss =
      let buf = encode_ack pb seq status detail info pb.ack_size in
      let (c, s) = publish (session_of which ss) topic buf at_least_once false in
      if length buf == 0 then ([], ss) else (call which c ∷ [], with_session which s ss)

  -- `rc` is what `zbus_chan_pub` returns.
  unfoldable pub forward_to_peer : List ℕ → ℕ → Rc → Sessions → List Act × Sessions
  forward_to_peer payload sequence rc ss =
      if ltb relay_down_max (length payload)
      then publish_ack true peer_topic_ack sequence failed
          (some (codes "command too large to relay")) none ss
      else if is_success rc
      then (
        hand_over (record {
          node_id = first_peer_node_id;
          len = length payload % 2 ^ 8;
          sequence = sequence;
          bytes = payload;
        })
            ∷ [],
        ss,
      )
      else publish_ack true peer_topic_ack sequence failed (some (codes "relay busy")) none ss

  abbrev pub detail_if : List ℕ → Option (List ℕ)
  detail_if [] = none
  detail_if (c ∷ cs) = some (c ∷ cs)

  abbrev pub info_if : CommandResult → Option DeviceInfo
  info_if r = if r.has_info then some r.info else none

  abbrev pub puback : Bool → Qos → ℕ → List Act
  puback which at_least_once id = call which (mqtt_publish_qos1_ack id) ∷ []
  puback which at_most_once id = []

  -- What is done with the decoded payload; `for_peer` says whose topic it came on.
  unfoldable pub carry_out :
      Bool
      → Bool
      → Bool × Command
      → List ℕ
      → Bool
      → Rc
      → Sessions
      → Dedupe
      → n.Bus
      → List Act × Sessions × Dedupe × n.Bus
  carry_out which for_peer (false, _) payload oversized rc ss d b =
      let topic = if for_peer then peer_topic_ack else (session_of which ss).config.topic_ack in
      let detail = if oversized then codes "payload too large" else codes "decode failed" in
      let (acts, ss') = publish_ack which topic 0 malformed (some detail) none ss in
      (acts, ss', d, b)
  carry_out which true (true, cmd) payload oversized rc ss d b =
      let (acts, ss') = forward_to_peer payload cmd.sequence rc ss in (acts, ss', d, b)
  carry_out which false (true, cmd) payload oversized rc ss d b =
      let (result, d', b') = handle_command n cmd d b in
      let (acts, ss') =
        publish_ack which (session_of which ss).config.topic_ack cmd.sequence result.status
          (detail_if result.detail) (info_if result) ss in
      (acts, ss', d', b')

  unfoldable pub after_reading :
      Bool
      → PublishEvt
      → List ℕ
      → Rc
      → Sessions
      → Dedupe
      → n.Bus
      → List Act × Sessions × Dedupe × n.Bus
  after_reading which e payload rc ss d b =
      let oversized = ltb 128 e.len in
      let (acts, ss', d', b') =
        carry_out which (topic_is e.topic peer_topic_command) (decode_command pb payload oversized)
          payload oversized rc ss d b in
      (puback which e.qos e.message_id ++ acts, ss', d', b')

  -- With the stream after it; a failure to read ends it, with the rest of the payload unread.
  abbrev pub finish :
      {A : Type 0}
      → Bool
      → PublishEvt
      → Rc
      → Sessions
      → Dedupe
      → n.Bus
      → Drained (List ℕ × A)
      → Drained A × List Act × Sessions × Dedupe × n.Bus
  finish which e rc ss d b read_failed = (read_failed, [], ss, d, b)
  finish which e rc ss d b (drained r) =
      let (acts, ss', d', b') = after_reading which e r.0 rc ss d b in
      (drained r.1, acts, ss', d', b')

  unfoldable pub handle_incoming_publish :
      (m : Reader)
      → Bool
      → PublishEvt
      → m.Stream
      → Rc
      → Sessions
      → Dedupe
      → n.Bus
      → Drained m.Stream × List Act × Sessions × Dedupe × n.Bus
  handle_incoming_publish m which e st rc ss d b =
      finish which e rc ss d b (read_payload m e.len st)
