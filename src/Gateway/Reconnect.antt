-- ===== src/Gateway/Reconnect.antt =====
-- How a session of gateway/src/main.cpp comes to serve, and what it then says of its node.
use climate_node.Common.{
  ℕ, ◌+◌, ◌≤◌, ◌<◌, ◌≡◌, refl, Bool, true, false, List, [], ◌∷◌, ◌++◌, Option, none, some, le→leb,
  arith,
}
use climate_node.Zephyr.{success}
use climate_node.Relay.{RelayStatus}
use climate_node.Gateway.{
  backoff_min_ms, connack_timeout_ms, idle, connecting, serving, NodeSession, MqttCall,
  mqtt_connect, mqtt_publish, at_least_once, client_setup, next_id, publish, subscribe_to_commands,
}
use climate_node.Gateway.Lifecycle.{
  session_connect, session_serving, status_text, connack, on_evts, SessionInput, start, take_input,
  look_after, look_after_in, session_pass,
}

-- `online` as the session publishes it: retained, on the topic that its will has.
abbrev pub status_call : NodeSession → Bool → MqttCall
status_call s online = mqtt_publish (record {
  topic = (client_setup s.config).will_topic;
  payload = status_text online;
  qos = at_least_once;
  message_id = next_id s.next_message_id;
  retain = true;
})

stages :
    (i : SessionInput) (s s1 s2 s3 : NodeSession) (c1 c2 c3 : List MqttCall)
    → start i s ≡ (c1, s1)
    → take_input i s1 ≡ (c2, s2)
    → look_after i s2 ≡ (c3, s3)
    → session_pass i s ≡ (c1 ++ (c2 ++ c3), s3)
unfolding session_pass
stages i s s1 s2 s3 c1 c2 c3 h1 h2 h3 = rw (h1, h2, h3)

abbrev connecting_since : ℕ → NodeSession → NodeSession
connecting_since t s = record s {
  connected = false;
  connect_failed = false;
  state = connecting;
  connack_due = t + connack_timeout_ms;
}

start_due :
    (i : SessionInput) (s : NodeSession)
    → s.state ≡ idle
    → s.retry_at ≤ i.now
    → i.connect_rc ≡ success
    → start i s ≡ (mqtt_connect (client_setup s.config) ∷ [], connecting_since i.connect_noted s)
unfolding start session_connect
start_due i s idles due connects = rw (idles, connects, le→leb s.retry_at i.now due)

start_busy : (i : SessionInput) (s : NodeSession) → s.state ≡ connecting → start i s ≡ ([], s)
unfolding start
start_busy i s h = rw (h)

take_input_none :
    (i : SessionInput) (s : NodeSession) → i.readable ≡ false → take_input i s ≡ ([], s)
unfolding take_input
take_input_none i s h = ground (arith, h)

take_input_connack :
    (j : SessionInput) (s : NodeSession)
    → s.state ≡ connecting
    → j.readable ≡ true
    → j.events ≡ connack success ∷ []
    → j.input_rc ≡ success
    → take_input j s ≡ ([], record s { connected = true })
unfolding take_input on_evts
take_input_connack j s h reads events input = rw (h, reads, events, input)

wait_for_connack :
    (i : SessionInput) (s : NodeSession)
    → i.later < i.connect_noted + connack_timeout_ms
    → look_after i (connecting_since i.connect_noted s) ≡ ([], connecting_since i.connect_noted s)
unfolding look_after look_after_in
wait_for_connack i s early = ground arith

look_after_accepted :
    (j : SessionInput) (s : NodeSession)
    → s.state ≡ connecting
    → s.connected ≡ true
    → j.serving_events ≡ []
    → look_after j s ≡ session_serving s j.status
unfolding look_after look_after_in on_evts
look_after_accepted j s h c quiet = rw (h, c, quiet)

starts :
    (i : SessionInput) (s : NodeSession)
    → s.state ≡ idle
    → s.retry_at ≤ i.now
    → i.connect_rc ≡ success
    → i.readable ≡ false
    → i.later < i.connect_noted + connack_timeout_ms
    → session_pass i s
      ≡ (mqtt_connect (client_setup s.config) ∷ [], connecting_since i.connect_noted s)
starts i s idles due connects unread early =
    stages i s _ _ _ _ _ _ (start_due i s idles due connects)
      (take_input_none i (connecting_since i.connect_noted s) unread) (wait_for_connack i s early)

serves :
    (j : SessionInput) (s : NodeSession)
    → s.state ≡ connecting
    → j.readable ≡ true
    → j.events ≡ connack success ∷ []
    → j.input_rc ≡ success
    → j.serving_events ≡ []
    → session_pass j s ≡ session_serving (record s { connected = true }) j.status
serves j s h reads events input quiet =
    stages j s _ _ _ _ _ _ (start_busy j s h) (take_input_connack j s h reads events input)
      (look_after_accepted j (record s { connected = true }) h refl quiet)

session_serving_own :
    (s : NodeSession) (status : Option RelayStatus)
    → s.config.is_peer ≡ false
    → let (calls, s') = session_serving s status in
      (calls ≡ status_call s true ∷ subscribe_to_commands s ∷ [])
      × (s'.state ≡ serving)
      × (s'.backoff_ms ≡ backoff_min_ms)
unfolding session_serving publish
session_serving_own s none h = ground (arith, h)
session_serving_own s (some st) h = ground (arith, h)

-- An idle session whose retry is due, with a broker that takes the connection: the pass connects,
-- with the will of its node, and if the CONNACK comes in the next pass, before its timeout, and
-- nothing is reported over the messages sent then, the session serves, its backoff is the shortest,
-- and what goes out is exactly one retained `online` on the topic of the will and one subscription.
-- This is said of the gateway's own session.
pub reconnects :
    (i j : SessionInput) (s : NodeSession)
    → s.config.is_peer ≡ false
    → s.state ≡ idle
    → s.retry_at ≤ i.now
    → i.connect_rc ≡ success
    → i.readable ≡ false
    → i.later < i.connect_noted + connack_timeout_ms
    → j.readable ≡ true
    → j.events ≡ connack success ∷ []
    → j.input_rc ≡ success
    → j.serving_events ≡ []
    → let (c1, s1) = session_pass i s in
      let (c2, s2) = session_pass j s1 in
      (c1 ≡ mqtt_connect (client_setup s.config) ∷ [])
      × (s1.state ≡ connecting)
      × (c2 ≡ status_call s true ∷ subscribe_to_commands s ∷ [])
      × (s2.state ≡ serving)
      × (s2.backoff_ms ≡ backoff_min_ms)
reconnects i j s own idles due connects unread early reads events input quiet =
    let s1 = connecting_since i.connect_noted s in
    let served = session_serving_own (record s1 { connected = true }) j.status own in
    rw (starts i s idles due connects unread early, serves j s1 refl reads events input quiet)
      (refl, refl, served.0, served.1, served.2)

-- When the peer's session comes to serve, it says of the peer what the relay believes and nothing
-- else: its status is published exactly if the relay's can be read and names a node, and then as the
-- relay has it; it subscribes in any case.
pub session_serving_peer :
    (s : NodeSession) (node_id : ℕ) (online : Bool)
    → s.config.is_peer ≡ true
    → ((session_serving s none).0 ≡ subscribe_to_commands s ∷ [])
      × ((session_serving s (some (record { node_id = 0; online = online }))).0
          ≡ subscribe_to_commands s ∷ [])
      × ((session_serving s (some (record { node_id = node_id + 1; online = online }))).0
          ≡ status_call s online ∷ subscribe_to_commands s ∷ [])
unfolding session_serving publish
session_serving_peer s node_id online h = (ground (arith, h), ground (arith, h), ground (arith, h))
