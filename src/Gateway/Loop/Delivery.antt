-- ===== src/Gateway/Loop/Delivery.antt =====
-- What the publishing stages of the main loop of gateway/src/main.cpp make of the newest message on a
-- channel.
use climate_node.Common.{
  ◌<◌, ◌≡◌, refl, ap, Bool, true, false, List, [], ◌∷◌, if◌then◌else◌, length, arith,
}
use climate_node.Zephyr.{is_success}
use climate_node.AppChannels.{SensorReading}
use climate_node.Commands.{Node}
use climate_node.Protocol.{Nanopb, encode_telemetry}
use climate_node.Relay.{RelayUp, RelayStatus}
use climate_node.Gateway.{
  peer_topic_status, peer_topic_telemetry, peer_topic_ack, serving, at_most_once, at_least_once,
  NodeSession, MqttCall, next_id,
}
use climate_node.Gateway.Lifecycle.{status_text}
use climate_node.Gateway.Outgoing.{
  publish_relayed_status, Slot, Sent, stage, publish_relayed, publish_pending_telemetry,
}
use climate_node.Gateway.Outgoing.Stages.{
  sent_status, message, HasNews, stage_tries, sent_relayed, sent_telemetry,
}
use climate_node.Gateway.Loop.{
  relay_status_stage, StageInput, slot_of, stage_on, calls_of, World, own_stage,
  relay_telemetry_stage, relay_ack_stage,
}
use climate_node.Gateway.Incoming.{Act, call}
use climate_node.Gateway.Channels.{Channel, chan_pub, has_events, read_events}

-- The slot of a stage on a readable channel with a new message.
HasNews-slot_of :
    {A : Type 0} (i : StageInput) (c : Channel A) (a : A)
    → c.has_fd ≡ true
    → i.can_read ≡ true
    → HasNews (slot_of true i (chan_pub a c)) a i.rc
unfolding slot_of chan_pub
HasNews-slot_of i c a fd readable = (refl, ground (arith, fd), ground (arith, fd, readable), refl)

has_events-read_events : {A : Type 0} (c : Channel A) → has_events (read_events c).1 ≡ false
unfolding read_events
has_events-read_events c = ground arith

goes_first :
    (b : Bool) (m : MqttCall) (rest : List MqttCall) (s t : NodeSession)
    (r : List MqttCall × NodeSession)
    → r ≡ (if b then (m ∷ [], s) else (m ∷ rest, t))
    → (more : List MqttCall) × (r.0 ≡ m ∷ more)
goes_first false m rest s t r h = (rest, ap (λ (x : List MqttCall × NodeSession). x.0) h)
goes_first true m rest s t r h = ([], ap (λ (x : List MqttCall × NodeSession). x.0) h)

-- A message goes out first; the counter is back at 0.
abbrev pub GoesOut : {A : Type 0} → MqttCall → List MqttCall × NodeSession × Channel A → Type 0
GoesOut m (calls, s, c) = (more : List MqttCall) × (calls ≡ m ∷ more) × (has_events c ≡ false)

stage_on-GoesOut :
    {A : Type 0} (f : Slot A → NodeSession → Sent) (i : StageInput) (c : Channel A) (a : A)
    (s s' : NodeSession) (m : MqttCall)
    → c.has_fd ≡ true
    → s.state ≡ serving
    → s'.state ≡ serving
    → f (slot_of true i (chan_pub a c)) s ≡ (m ∷ [], s', i.rc)
    → GoesOut m (stage_on f true i (chan_pub a c) s)
unfolding stage_on slot_of
stage_on-GoesOut f i c a s s' m fd q q' sent =
    let x = slot_of true i (chan_pub a c) in
    let first =
      goes_first (is_success i.rc) m _ s' _ (stage f x s)
        (stage_tries f x s s' m i.rc refl q q' sent) in
    (first.0, first.1, rw (q) (has_events-read_events (chan_pub a c)))

-- What is published by a part: the message first.
abbrev pub PublishesFirst : Bool → MqttCall → List Act → Type 0
PublishesFirst which m acts = (more : List Act) × (acts ≡ call which m ∷ more)

calls_of-PublishesFirst :
    (which : Bool) (m : MqttCall) (calls more : List MqttCall)
    → calls ≡ m ∷ more
    → PublishesFirst which m (calls_of which calls)
calls_of-PublishesFirst which m calls more h = (calls_of which more, ap (calls_of which) h)

module _ (n : Node) (pb : Nanopb) (i : StageInput) (w : World n pb)
    (readable : i.can_read ≡ true) where
  module _ (c : Channel RelayUp) (up : RelayUp) (fd : c.has_fd ≡ true)
      (serves : w.sessions.peer.state ≡ serving) where
    -- The newest payload on the channel goes to the peer's telemetry topic, byte for byte.
    pub relay_telemetry_stage_lem :
        w.channels.relay_telemetry ≡ chan_pub up c
        → let (acts, w') = relay_telemetry_stage n pb true i w in
          PublishesFirst true (message peer_topic_telemetry up.bytes at_most_once 0 false) acts
          × (has_events w'.channels.relay_telemetry ≡ false)
    unfolding relay_telemetry_stage
    relay_telemetry_stage_lem newest =
        let s = w.sessions.peer in
        let sent =
          sent_relayed peer_topic_telemetry _ s up i.rc (HasNews-slot_of i c up fd readable) in
        let out =
          stage_on-GoesOut (publish_relayed peer_topic_telemetry at_most_once) i c up s s _ fd
            serves serves sent.0 in
        rw (newest) (calls_of-PublishesFirst true _ _ out.0 out.1, out.2)

    -- The newest payload on the channel goes to the peer's Ack topic, byte for byte.
    pub relay_ack_stage_lem :
        w.channels.relay_ack ≡ chan_pub up c
        → let (acts, w') = relay_ack_stage n pb true i w in
          let id = next_id w.sessions.peer.next_message_id in
          PublishesFirst true (message peer_topic_ack up.bytes at_least_once id false) acts
          × (has_events w'.channels.relay_ack ≡ false)
    unfolding relay_ack_stage
    relay_ack_stage_lem newest =
        let s = w.sessions.peer in
        let sent = sent_relayed peer_topic_ack _ s up i.rc (HasNews-slot_of i c up fd readable) in
        let out =
          stage_on-GoesOut (publish_relayed peer_topic_ack at_least_once) i c up s
            (record s { next_message_id = next_id s.next_message_id }) _ fd serves serves sent.1 in
        rw (newest) (calls_of-PublishesFirst true _ _ out.0 out.1, out.2)

  -- The newest status on the channel goes to the peer's status topic as a text, retained.
  pub relay_status_stage_lem :
      (c : Channel RelayStatus) (st : RelayStatus)
      → c.has_fd ≡ true
      → w.sessions.peer.state ≡ serving
      → w.channels.relay_status ≡ chan_pub st c
      → let (acts, w') = relay_status_stage n pb true i w in
        let id = next_id w.sessions.peer.next_message_id in
        PublishesFirst true
          (message peer_topic_status (status_text st.online) at_least_once id true)
          acts
        × (has_events w'.channels.relay_status ≡ false)
  unfolding relay_status_stage
  relay_status_stage_lem c st fd serves newest =
      let s = w.sessions.peer in
      let sent = sent_status _ s st i.rc (HasNews-slot_of i c st fd readable) in
      let s' = record s { next_message_id = next_id s.next_message_id } in
      let out = stage_on-GoesOut publish_relayed_status i c st s s' _ fd serves serves sent in
      rw (newest) (calls_of-PublishesFirst true _ _ out.0 out.1, out.2)

  -- The newest reading on the channel goes to the node's own topic, if it encodes to anything.
  pub own_stage_lem :
      (c : Channel SensorReading) (r : SensorReading)
      → c.has_fd ≡ true
      → w.sessions.own.state ≡ serving
      → 0 < length (encode_telemetry pb r pb.telemetry_size)
      → w.channels.telemetry ≡ chan_pub r c
      → let (acts, w') = own_stage n pb true i w in
        let bytes = encode_telemetry pb r pb.telemetry_size in
        PublishesFirst false
          (message w.sessions.own.config.topic_telemetry bytes at_most_once 0 false)
          acts
        × (has_events w'.channels.telemetry ≡ false)
  unfolding own_stage
  own_stage_lem c r fd serves some_bytes newest =
      let s = w.sessions.own in
      let sent = sent_telemetry pb _ s r i.rc (HasNews-slot_of i c r fd readable) some_bytes in
      let out = stage_on-GoesOut (publish_pending_telemetry pb) i c r s s _ fd serves serves sent in
      rw (newest) (calls_of-PublishesFirst false _ _ out.0 out.1, out.2)
