-- ===== src/Gateway/Loop/Policy/Parts.antt =====
-- The policy for each part of a pass of the main loop of gateway/src/main.cpp.
use climate_node.Common.{ℕ, Bool, true, false, List, [], ◌∷◌, Option, if_both, ◌&&◌}
use climate_node.Common.Decimal.{All, All-append}
use climate_node.Zephyr.{is_success}
use climate_node.Commands.{Node}
use climate_node.Protocol.{Nanopb}
use climate_node.Gateway.{
  NodeSession, MqttCall, peer_topic_telemetry, peer_topic_ack, at_most_once, at_least_once,
}
use climate_node.Gateway.Lifecycle.{SessionInput, is_serving}
use climate_node.Gateway.Incoming.{session_of, Act, drained, read_failed}
use climate_node.Gateway.Loop.{
  ◌>>◌, is_slot, Event, session_evt, message, StageInput, LoopInput, News, World, Part, on_session,
  hear, hear_all, read_socket, others_publish, look_after_peer, own_stage, relay_telemetry_stage,
  relay_ack_stage, relay_status_stage, arrive,
}
use climate_node.Gateway.Loop.Policy.{FollowsAct, HasTopics, Kinds}
use climate_node.Gateway.Loop.Policy.Sessions.{
  Sound, Sound-session_drop, HasTopics-on_evt, Sound-look_after,
}
use climate_node.Gateway.Loop.Policy.Publishing.{
  SendsSoundly-publish_pending_telemetry, SendsSoundly-publish_relayed_telemetry,
  SendsSoundly-publish_relayed_ack, SendsSoundly-publish_relayed_status, AnyStatus,
}
use climate_node.Gateway.Loop.Policy.Incoming.{
  BothTopics, HasTopics-session_of, BothTopics-with_session, calls_of-FollowsAct,
  FollowsAll-after_reading,
}
use climate_node.Gateway.Loop.Policy.Held.{
  Hold, Brings, value-chan_pubs, value-stage_on, Sound-stage_on,
}
use climate_node.Gateway.Outgoing.{
  publish_pending_telemetry, publish_relayed, publish_relayed_status,
}

module _ (n : Node) (pb : Nanopb) (kinds : Kinds) where
  abbrev Obeys : Act → Type 0
  Obeys = FollowsAct pb kinds

  -- The sessions have their topics, and the claims hold of the channels.
  abbrev Right : World n pb → Type 0
  Right w = BothTopics w.sessions × Hold kinds w.channels

  abbrev pub FollowsWorld : List Act × World n pb → Type 0
  FollowsWorld (acts, w) = All Obeys acts × Right w

  -- A part of a pass that follows the policy.
  abbrev pub Keeps : Part n pb → Type 0
  Keeps f = (w : World n pb) → Right w → FollowsWorld (f w)

  pub Keeps->> : (f g : Part n pb) → Keeps f → Keeps g → Keeps (◌>>◌ n pb f g)
  Keeps->> f g kf kg w h =
      let first = kf w h in
      let second = kg (f w).1 first.1 in (All-append Obeys _ _ first.0 second.0, second.1)

  pub Keeps-on_session :
      (which : Bool) (f : NodeSession → List MqttCall × NodeSession)
      → ((s : NodeSession) → HasTopics s.config → Sound pb kinds (f s))
      → Keeps (on_session n pb which f)
  unfolding on_session
  Keeps-on_session which f k w h =
      let out = k (session_of which w.sessions) (HasTopics-session_of which w.sessions h.0) in
      (
        calls_of-FollowsAct pb kinds which _ out.0,
        (BothTopics-with_session which _ w.sessions out.1 h.0, h.1),
      )

  Keeps-hear : (which : Bool) (e : Event) → Keeps (hear n pb which e)
  unfolding hear
  Keeps-hear which (session_evt e) w h = (
    tt,
    (
      BothTopics-with_session which _ w.sessions
          (HasTopics-on_evt pb kinds e (session_of which w.sessions)
            (HasTopics-session_of which w.sessions h.0))
          h.0,
      h.1,
    ),
  )
  Keeps-hear which (message e read_failed rc) w h = (tt, h)
  Keeps-hear which (message e (drained payload) rc) w h =
      let out =
        FollowsAll-after_reading n pb kinds which e payload rc w.sessions w.dedupe w.bus h.0 in
      (out.0, (out.1, h.1))

  Keeps-hear_all : (which : Bool) (es : List Event) → Keeps (hear_all n pb which es)
  unfolding hear_all
  Keeps-hear_all which [] w h = (tt, h)
  Keeps-hear_all which (e ∷ es) w h =
      Keeps->> (hear n pb which e) (hear_all n pb which es) (Keeps-hear which e)
        (Keeps-hear_all which es) w h

  pub Keeps-read_socket :
      (which : Bool) (slot : Option ℕ) (i : SessionInput) (es : List Event)
      → Keeps (read_socket n pb which slot i es)
  unfolding read_socket
  Keeps-read_socket which slot i es w h =
      let heard = Keeps-hear_all which es w h in
      let ss = (hear_all n pb which es w).1.sessions in
      let s = session_of which ss in
      let dropped =
        Sound-session_drop pb kinds s (is_serving s.state) i.input_noted
          (HasTopics-session_of which ss heard.1.0) in
      if_both FollowsWorld (is_slot slot && i.readable)
        (if_both FollowsWorld (is_success i.input_rc) heard (
          All-append Obeys _ _ heard.0 (calls_of-FollowsAct pb kinds which _ dropped.0),
          (BothTopics-with_session which _ ss dropped.1 heard.1.0, heard.1.1),
        ))
        (tt, h)

  module _ (ready : Bool) (i : StageInput) where
    pub Keeps-own_stage : Keeps (own_stage n pb ready i)
    unfolding own_stage
    Keeps-own_stage w (topics, held) =
        let c = w.channels.telemetry in
        let s = w.sessions.own in
        let f = publish_pending_telemetry pb in
        let out =
          Sound-stage_on pb kinds kinds.reading f ready i c s
            (SendsSoundly-publish_pending_telemetry pb kinds) held.0 topics.0 in
        (
          calls_of-FollowsAct pb kinds false _ out.0,
          ((out.1, topics.1), (value-stage_on kinds.reading f ready i c s held.0, held.1, held.2)),
        )

    pub Keeps-relay_telemetry_stage : Keeps (relay_telemetry_stage n pb ready i)
    unfolding relay_telemetry_stage
    Keeps-relay_telemetry_stage w (topics, held) =
        let c = w.channels.relay_telemetry in
        let s = w.sessions.peer in
        let f = publish_relayed peer_topic_telemetry at_most_once in
        let out =
          Sound-stage_on pb kinds kinds.telemetry f ready i c s
            (SendsSoundly-publish_relayed_telemetry pb kinds) held.1 topics.1 in
        (
          calls_of-FollowsAct pb kinds true _ out.0,
          (
            (topics.0, out.1),
            (held.0, value-stage_on kinds.telemetry f ready i c s held.1, held.2),
          ),
        )

    pub Keeps-relay_ack_stage : Keeps (relay_ack_stage n pb ready i)
    unfolding relay_ack_stage
    Keeps-relay_ack_stage w (topics, held) =
        let c = w.channels.relay_ack in
        let s = w.sessions.peer in
        let f = publish_relayed peer_topic_ack at_least_once in
        let out =
          Sound-stage_on pb kinds kinds.ack f ready i c s
            (SendsSoundly-publish_relayed_ack pb kinds) held.2 topics.1 in
        (
          calls_of-FollowsAct pb kinds true _ out.0,
          ((topics.0, out.1), (held.0, held.1, value-stage_on kinds.ack f ready i c s held.2)),
        )

    pub Keeps-relay_status_stage : Keeps (relay_status_stage n pb ready i)
    unfolding relay_status_stage
    Keeps-relay_status_stage w (topics, held) =
        let out =
          Sound-stage_on pb kinds (AnyStatus pb kinds) publish_relayed_status ready i
            w.channels.relay_status w.sessions.peer (SendsSoundly-publish_relayed_status pb kinds)
            tt topics.1 in
        (calls_of-FollowsAct pb kinds true _ out.0, ((topics.0, out.1), held))

  pub Keeps-look_after_peer : (i : LoopInput) → Keeps (look_after_peer n pb i)
  unfolding look_after_peer
  Keeps-look_after_peer i w h = Keeps-on_session true _ (λ s t. Sound-look_after pb kinds _ s t) w h

  pub Keeps-others_publish : (news : News) → Brings kinds news → Keeps (others_publish n pb news)
  unfolding others_publish arrive
  Keeps-others_publish news (readings, relayed, acks) w (topics, held) = (
    tt,
    (
      topics,
      (
        value-chan_pubs kinds.reading news.telemetry w.channels.telemetry readings held.0,
        value-chan_pubs kinds.telemetry news.relay_telemetry w.channels.relay_telemetry relayed
            held.1,
        value-chan_pubs kinds.ack news.relay_ack w.channels.relay_ack acks held.2,
      ),
    ),
  )
