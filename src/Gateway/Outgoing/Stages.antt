-- ===== src/Gateway/Outgoing/Stages.antt =====
-- What the publishing stage sends, and when it stops.
use climate_node.Common.{
  ℕ, ◌<◌, ◌≡◌, refl, ◌↔◌, Bool, true, false, List, [], ◌∷◌, some, ◌==◌, if◌then◌else◌, length,
  arith,
}
use climate_node.Zephyr.{Rc, success, is_success}
use climate_node.AppChannels.{SensorReading}
use climate_node.Protocol.{Nanopb, IsNanopb, encode_telemetry}
use climate_node.Protocol.Telemetry.{
  ReadingFits, visible, host_reading, encode_telemetry-host_reading,
}
use climate_node.Relay.{RelayUp, RelayStatus}
use climate_node.Gateway.{
  peer_topic_telemetry, peer_topic_ack, peer_topic_status, serving, Qos, at_most_once,
  at_least_once, NodeSession, MqttCall, mqtt_publish, mqtt_disconnect, publish, next_id,
}
use climate_node.Gateway.Lifecycle.{status_text, session_drop, hang_up, is_serving}
use climate_node.Gateway.Outgoing.{
  Slot, Sent, when_signalled, publish_pending_telemetry, publish_relayed, publish_relayed_status,
  stage, publish_own, PeerSlots, publish_peer,
}

-- A message of a stage; at most once has no packet id.
abbrev pub message : List ℕ → List ℕ → Qos → ℕ → Bool → MqttCall
message topic payload qos id retain =
    mqtt_publish
      (record { topic = topic; payload = payload; qos = qos; message_id = id; retain = retain })

abbrev pub HasNews : {A : Type 0} → Slot A → A → Rc → Type 0
HasNews x a rc = (x.ready ≡ true) × (x.signalled ≡ true) × (x.value ≡ some a) × (x.rc ≡ rc)

stage_sends :
    {A : Type 0} (f : Slot A → NodeSession → Sent) (x : Slot A) (s s' : NodeSession) (c : MqttCall)
    → x.ready ≡ true
    → s.state ≡ serving
    → f x s ≡ (c ∷ [], s', success)
    → stage f x s ≡ (c ∷ [], s')
unfolding stage
stage_sends f x s s' c r q h = rw (h, r, q)

stage_stops :
    {A : Type 0} (f : Slot A → NodeSession → Sent) (x : Slot A) (s s' : NodeSession) (c : MqttCall)
    (rc : Rc)
    → x.ready ≡ true
    → s.state ≡ serving
    → s'.state ≡ serving
    → is_success rc ≡ false
    → f x s ≡ (c ∷ [], s', rc)
    → stage f x s ≡ (c ∷ mqtt_disconnect ∷ [], (session_drop s' true x.noted).1)
unfolding stage session_drop hang_up
stage_stops f x s s' c rc r q q' bad h = rw (h, r, q, bad, q')

pub stage_tries :
    {A : Type 0} (f : Slot A → NodeSession → Sent) (x : Slot A) (s s' : NodeSession) (c : MqttCall)
    (rc : Rc)
    → x.ready ≡ true
    → s.state ≡ serving
    → s'.state ≡ serving
    → f x s ≡ (c ∷ [], s', rc)
    → stage f x s ≡ (
        if is_success rc
        then (c ∷ [], s')
        else (c ∷ mqtt_disconnect ∷ [], (session_drop s' true x.noted).1))
unfolding stage session_drop hang_up
stage_tries f x s s' c rc r q q' h = rw (h, r, q, q')

stage_silent :
    {A : Type 0} (f : Slot A → NodeSession → Sent) (x : Slot A) (s : NodeSession)
    → is_serving s.state ≡ false
    → stage f x s ≡ ([], s)
unfolding stage
stage_silent f x s h = ground (arith, h)

pub sent_relayed :
    (topic : List ℕ) (x : Slot RelayUp) (s : NodeSession) (up : RelayUp) (rc : Rc)
    → HasNews x up rc
    → (publish_relayed topic at_most_once x s
        ≡ (message topic up.bytes at_most_once 0 false ∷ [], s, rc))
      × (publish_relayed topic at_least_once x s ≡ (
        message topic up.bytes at_least_once (next_id s.next_message_id) false ∷ [],
        record s { next_message_id = next_id s.next_message_id },
        rc,
      ))
unfolding publish_relayed when_signalled publish
sent_relayed topic x s up rc (r, g, v, c) = (rw (g, v, c), rw (g, v, c))

pub sent_status :
    (x : Slot RelayStatus) (s : NodeSession) (st : RelayStatus) (rc : Rc)
    → HasNews x st rc
    → publish_relayed_status x s ≡ (
      message peer_topic_status
            (status_text st.online)
            at_least_once
            (next_id s.next_message_id)
            true
          ∷ [],
      record s { next_message_id = next_id s.next_message_id },
      rc,
    )
unfolding publish_relayed_status when_signalled publish
sent_status x s st rc (r, g, v, c) = rw (g, v, c)

pub sent_telemetry :
    (pb : Nanopb) (x : Slot SensorReading) (s : NodeSession) (r : SensorReading) (rc : Rc)
    → HasNews x r rc
    → 0 < length (encode_telemetry pb r pb.telemetry_size)
    → publish_pending_telemetry pb x s ≡ (
      message s.config.topic_telemetry
            (encode_telemetry pb r pb.telemetry_size)
            at_most_once
            0
            false
          ∷ [],
      s,
      rc,
    )
unfolding publish_pending_telemetry when_signalled publish
sent_telemetry pb x s r rc (ready, g, v, c) some_bytes =
    let not_empty : (length (encode_telemetry pb r pb.telemetry_size) == 0) ≡ false =
      ground arith in
    rw (g, v, c, not_empty)

idles : (s : NodeSession) (now : ℕ) → is_serving (session_drop s true now).1.state ≡ false
unfolding session_drop
idles s now = refl

-- With news on all three of the relay's channels and a broker that takes the messages, a serving
-- session sends three: the telemetry at most once, the Ack at least once, both byte for byte as the
-- relay left them, and the status, retained; the two that may be acknowledged have the next two
-- packet ids, and the session goes on serving.
pub publish_peer_all :
    (x : PeerSlots) (s : NodeSession) (up ack : RelayUp) (st : RelayStatus)
    → s.state ≡ serving
    → HasNews x.telemetry up success
    → HasNews x.ack ack success
    → HasNews x.status st success
    → let id = next_id s.next_message_id in
      publish_peer x s ≡ (
        message peer_topic_telemetry up.bytes at_most_once 0 false
            ∷ message peer_topic_ack ack.bytes at_least_once id false
            ∷ message peer_topic_status (status_text st.online) at_least_once (next_id id) true
            ∷ [],
        record s { next_message_id = next_id id },
      )
unfolding publish_peer
publish_peer_all x s up ack st q t a u =
    let id = next_id s.next_message_id in
    let s2 : NodeSession = record s { next_message_id = id } in
    rw (
      stage_sends (publish_relayed peer_topic_telemetry at_most_once) x.telemetry s s _ t.0 q
          (sent_relayed peer_topic_telemetry x.telemetry s up success t).0,
      stage_sends (publish_relayed peer_topic_ack at_least_once) x.ack s s2 _ a.0 q
          (sent_relayed peer_topic_ack x.ack s ack success a).1,
      stage_sends publish_relayed_status x.status s2 (record s { next_message_id = next_id id }) _
          u.0 q (sent_status x.status s2 st success u),
    )

-- When the telemetry cannot be published, the session is dropped with a clean disconnect and idles,
-- and whatever the other two channels hold, nothing more is published to it in this pass.
pub publish_peer_stops :
    (x : PeerSlots) (s : NodeSession) (up : RelayUp) (rc : Rc)
    → s.state ≡ serving
    → HasNews x.telemetry up rc
    → is_success rc ≡ false
    → publish_peer x s ≡ (
      message peer_topic_telemetry up.bytes at_most_once 0 false ∷ mqtt_disconnect ∷ [],
      (session_drop s true x.telemetry.noted).1,
    )
unfolding publish_peer
publish_peer_stops x s up rc q t bad =
    let dropped = (session_drop s true x.telemetry.noted).1 in
    rw (
      stage_stops (publish_relayed peer_topic_telemetry at_most_once) x.telemetry s s _ rc t.0 q q
          bad (sent_relayed peer_topic_telemetry x.telemetry s up rc t).0,
      stage_silent (publish_relayed peer_topic_ack at_least_once) x.ack dropped
          (idles s x.telemetry.noted),
      stage_silent publish_relayed_status x.status dropped (idles s x.telemetry.noted),
    )

-- A reading of the gateway's own sensor, with news of it on a serving session: exactly one message
-- goes out, at most once and not retained, on the session's telemetry topic, and a host reads the
-- reading from it; the session goes on serving exactly if the library took the message.
pub publish_own_lem :
    (pb : Nanopb)
    → IsNanopb pb
    → (x : Slot SensorReading) (s : NodeSession) (r : SensorReading) (rc : Rc) → ReadingFits r
    → s.state ≡ serving
    → HasNews x r rc
    → let (calls, s') = publish_own pb x s in
      (bytes : List ℕ) × (calls
        ≡ message s.config.topic_telemetry bytes at_most_once 0 false
          ∷ (if is_success rc then [] else mqtt_disconnect ∷ []))
      × (host_reading pb bytes ≡ some (visible r))
      × ((s'.state ≡ serving) ↔ (is_success rc ≡ true))
unfolding publish_own session_drop
publish_own_lem pb law x s r rc fits q news =
    let sent = encode_telemetry-host_reading pb law r fits in
    let told = sent_telemetry pb x s r rc news sent.0 in
    let tried = stage_tries (publish_pending_telemetry pb) x s s _ rc news.0 q q told in
    (
      encode_telemetry pb r pb.telemetry_size,
      rw (tried) (ground arith),
      sent.2,
      rw (tried) (ground (arith, q)),
    )
