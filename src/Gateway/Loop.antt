-- ===== src/Gateway/Loop.antt =====
-- One pass of the loop in `main` of gateway/src/main.cpp, over both sessions and the four channels.
-- What the clock, the MQTT library, the kernel and the other threads do in it is an input.
pub mod Inputs
pub mod Invariant
pub mod Stages
pub mod Runs
pub mod Delivery
pub mod Policy
pub mod Alone
pub mod Sample
mod Tests
pub use climate_node.Gateway.Loop.Inputs.{
  Channels, News, no_news, Event, session_evt, message, StageInput, LoopInput,
}
unfoldable pub use climate_node.Gateway.Loop.Inputs.{arrive}
use climate_node.Common.{
  ℕ, Bool, true, false, ◌&&◌, List, [], ◌∷◌, ◌++◌, map, Option, none, some, if◌then◌else◌,
}
use climate_node.Zephyr.{is_success}
use climate_node.Commands.{Node, Dedupe}
use climate_node.Protocol.{Nanopb}
use climate_node.Gateway.{
  peer_topic_telemetry, peer_topic_ack, at_most_once, at_least_once, NodeSession, MqttCall,
}
use climate_node.Gateway.Lifecycle.{
  session_drop, on_evt, SessionInput, is_serving, start, look_after,
}
use climate_node.Gateway.Incoming.{
  Sessions, session_of, with_session, Act, call, drained, read_failed, after_reading,
}
use climate_node.Gateway.Outgoing.{
  Slot, Sent, stage, publish_pending_telemetry, publish_relayed, publish_relayed_status,
}
use climate_node.Gateway.Channels.{Channel, has_events, read_events, chan_read}
use climate_node.Gateway.Poll.{PollSet, poll_set}

abbrev pub is_slot : Option ℕ → Bool
is_slot none = false
is_slot (some k) = true

-- A descriptor that was polled and had an event then.
abbrev pub is_ready : {A : Type 0} → Option ℕ → Channel A → Bool
is_ready slot c = is_slot slot && has_events c

unfoldable pub slot_of : {A : Type 0} → Bool → StageInput → Channel A → Slot A
slot_of ready i c = record {
  ready = ready;
  signalled = has_events c;
  value = chan_read i.can_read c;
  rc = i.rc;
  noted = i.noted;
}

-- A stage with its channel, whose counter it reads if it tries to publish at all.
unfoldable pub stage_on :
    {A : Type 0}
    → (Slot A → NodeSession → Sent)
    → Bool
    → StageInput
    → Channel A
    → NodeSession
    → List MqttCall × NodeSession × Channel A
stage_on f ready i c s =
    let (calls, s') = stage f (slot_of ready i c) s in
    let c' = if ready && is_serving s.state then (read_events c).1 else c in (calls, s', c')

abbrev pub calls_of : Bool → List MqttCall → List Act
calls_of which = map (call which)

module _ (n : Node) (pb : Nanopb) where
  pub record World : Type 0 where
    pub sessions : Sessions
    pub channels : Channels
    pub dedupe : Dedupe
    pub bus : n.Bus

  -- A part of a pass: what goes out, and the state after it; and one part after another.
  abbrev pub Part : Type 0
  Part = World → List Act × World

  infixl 5 ◌>>◌
  abbrev pub ◌>>◌ : Part → Part → Part
  ◌>>◌ f g w = let (acts, w') = f w in let (more, w'') = g w' in (acts ++ more, w'')

  abbrev pub set_session : Bool → NodeSession → World → World
  set_session which s w = record w { sessions = with_session which s w.sessions }

  unfoldable pub on_session : Bool → (NodeSession → List MqttCall × NodeSession) → Part
  on_session which f w =
      let (calls, s) = f (session_of which w.sessions) in
      (calls_of which calls, set_session which s w)

  unfoldable pub hear : Bool → Event → Part
  hear which (session_evt e) w = ([], set_session which (on_evt e (session_of which w.sessions)) w)
  hear which (message e read_failed rc) w = ([], w)
  hear which (message e (drained payload) rc) w =
      let (acts, ss, d, b) = after_reading n pb which e payload rc w.sessions w.dedupe w.bus in
      (acts, record w { sessions = ss; dedupe = d; bus = b })

  unfoldable pub hear_all : Bool → List Event → Part
  hear_all which [] w = ([], w)
  hear_all which (e ∷ es) w = (hear which e >> hear_all which es) w

  -- `mqtt_input` on a socket that was polled and is readable.
  unfoldable pub read_socket : Bool → Option ℕ → SessionInput → List Event → Part
  read_socket which slot i events w =
      let (acts, w') = hear_all which events w in
      let s = session_of which w'.sessions in
      let (calls, dropped) = session_drop s (is_serving s.state) i.input_noted in
      if is_slot slot && i.readable
      then (if is_success i.input_rc
          then (acts, w')
          else (acts ++ calls_of which calls, set_session which dropped w'))
      else ([], w)

  unfoldable pub others_publish : News → Part
  others_publish news w = ([], record w { channels = arrive news w.channels })

  -- The peer's session reads the relay's status off its channel.
  unfoldable pub look_after_peer : LoopInput → Part
  look_after_peer i w =
      on_session true
        (look_after
          (record i.peer { status = chan_read i.can_read_status w.channels.relay_status }))
        w

  unfoldable pub own_stage : Bool → StageInput → Part
  own_stage ready i w =
      let (calls, s, c) =
        stage_on (publish_pending_telemetry pb) ready i w.channels.telemetry w.sessions.own in
      (
        calls_of false calls,
        record (set_session false s w) { channels = record w.channels { telemetry = c } },
      )

  unfoldable pub relay_telemetry_stage : Bool → StageInput → Part
  relay_telemetry_stage ready i w =
      let (calls, s, c) =
        stage_on (publish_relayed peer_topic_telemetry at_most_once) ready i
          w.channels.relay_telemetry w.sessions.peer in
      (
        calls_of true calls,
        record (set_session true s w) { channels = record w.channels { relay_telemetry = c } },
      )

  unfoldable pub relay_ack_stage : Bool → StageInput → Part
  relay_ack_stage ready i w =
      let (calls, s, c) =
        stage_on (publish_relayed peer_topic_ack at_least_once) ready i w.channels.relay_ack
          w.sessions.peer in
      (
        calls_of true calls,
        record (set_session true s w) { channels = record w.channels { relay_ack = c } },
      )

  unfoldable pub relay_status_stage : Bool → StageInput → Part
  relay_status_stage ready i w =
      let (calls, s, c) =
        stage_on publish_relayed_status ready i w.channels.relay_status w.sessions.peer in
      (
        calls_of true calls,
        record (set_session true s w) { channels = record w.channels { relay_status = c } },
      )

  unfoldable pub start_both : LoopInput → Part
  start_both i =
      on_session false (start i.own) >> on_session true (start i.peer) >> others_publish i.news

  unfoldable pub after_poll : LoopInput → PollSet → Channels → Part
  after_poll i p polled =
      read_socket false p.own_sock i.own i.own_events
      >> read_socket true p.peer_sock i.peer i.peer_events
      >> on_session false (look_after i.own)
      >> look_after_peer i
      >> others_publish i.late_news
      >> own_stage (is_ready p.own_telemetry polled.telemetry) i.telemetry
      >> relay_telemetry_stage (is_ready p.relay_telemetry polled.relay_telemetry) i.relay_telemetry
      >> relay_ack_stage (is_ready p.relay_ack polled.relay_ack) i.relay_ack
      >> relay_status_stage (is_ready p.relay_status polled.relay_status) i.relay_status

  -- A poll that fails ends the pass.
  unfoldable pub main_pass : LoopInput → Part
  main_pass i =
      start_both i
      >> (λ w. if i.polls then after_poll i (poll_set w.sessions) w.channels w else ([], w))

  unfoldable pub main_run : List LoopInput → Part
  main_run [] w = ([], w)
  main_run (i ∷ is) w = (main_pass i >> main_run is) w
