-- ===== src/Gateway/Loop/Stages.antt =====
-- What the publishing stages of the loop of gateway/src/main.cpp keep of the sessions.
use climate_node.Common.{
  ℕ, ◌≤◌, Bool, true, false, ◌&&◌, List, Option, none, some, if_both, length, ◌==◌,
}
use climate_node.Zephyr.{is_success}
use climate_node.Commands.{Node}
use climate_node.Protocol.{Nanopb, encode_telemetry}
use climate_node.Gateway.{
  NodeSession, MqttCall, Qos, at_most_once, at_least_once, peer_topic_telemetry, peer_topic_ack,
  peer_topic_status,
}
use climate_node.Gateway.Lifecycle.{status_text, is_serving}
use climate_node.Gateway.Pass.{Timely, Timely-session_drop}
use climate_node.Gateway.Outgoing.{
  if_read, Slot, Sent, stage, when_signalled, publish_pending_telemetry, publish_relayed,
  publish_relayed_status,
}
use climate_node.Gateway.Channels.{Channel}
use climate_node.Gateway.Loop.{
  StageInput, stage_on, slot_of, World, own_stage, relay_telemetry_stage, relay_ack_stage,
  relay_status_stage,
}
use climate_node.Gateway.Loop.Invariant.{BothTimely, Timely-publish}

module _ (e : ℕ) where
  -- A publishing stage, of which only the session matters here.
  abbrev KeepsSent : {A : Type 0} → (Slot A → NodeSession → Sent) → Type 0
  KeepsSent {A} f = (x : Slot A) (s : NodeSession) → Timely e s → Timely e (f x s).1

  abbrev SoundCalls : List MqttCall × NodeSession → Type 0
  SoundCalls r = Timely e r.1

  Timely-stage :
      {A : Type 0} (f : Slot A → NodeSession → Sent) (x : Slot A) (s : NodeSession)
      → KeepsSent f
      → x.noted ≤ e
      → Timely e s
      → Timely e (stage f x s).1
  unfolding stage
  Timely-stage f x s keeps noted w =
      let kept = keeps x s w in
      if_both SoundCalls (x.ready && is_serving s.state)
        (if_both SoundCalls (is_success (f x s).2) kept
          (Timely-session_drop (f x s).1 true x.noted e noted kept))
        w

  abbrev SoundSent : Sent → Type 0
  SoundSent r = Timely e r.1

  Timely-if_read :
      {A : Type 0} (x : Slot A) (s : NodeSession) (f : A → Sent) (o : Option A)
      → ((a : A) → Timely e (f a).1)
      → Timely e s
      → Timely e (if_read x s f o).1
  Timely-if_read x s f none k w = w
  Timely-if_read x s f (some a) k w = k a

  Timely-when_signalled :
      {A : Type 0} (x : Slot A) (s : NodeSession) (f : A → Sent)
      → ((a : A) → Timely e (f a).1)
      → Timely e s
      → Timely e (when_signalled x s f).1
  unfolding when_signalled
  Timely-when_signalled x s f k w =
      if_both SoundSent x.signalled (Timely-if_read x s f x.value k w) w

  KeepsSent-publish_pending_telemetry : (pb : Nanopb) → KeepsSent (publish_pending_telemetry pb)
  unfolding publish_pending_telemetry
  KeepsSent-publish_pending_telemetry pb x s w =
      Timely-when_signalled x s _
        (λ r.
          if_both SoundSent (length (encode_telemetry pb r pb.telemetry_size) == 0) w
            (Timely-publish e s s.config.topic_telemetry _ at_most_once false w))
        w

  KeepsSent-publish_relayed : (topic : List ℕ) (qos : Qos) → KeepsSent (publish_relayed topic qos)
  unfolding publish_relayed
  KeepsSent-publish_relayed topic qos x s w =
      Timely-when_signalled x s _ (λ up. Timely-publish e s topic up.bytes qos false w) w

  KeepsSent-publish_relayed_status : KeepsSent publish_relayed_status
  unfolding publish_relayed_status
  KeepsSent-publish_relayed_status x s w =
      Timely-when_signalled x s _
        (λ st. Timely-publish e s peer_topic_status (status_text st.online) at_least_once true w) w

  pub Timely-stage_on :
      {A : Type 0} (f : Slot A → NodeSession → Sent) (ready : Bool) (i : StageInput) (c : Channel A)
      (s : NodeSession)
      → KeepsSent f
      → i.noted ≤ e
      → Timely e s
      → Timely e (stage_on f ready i c s).1
  unfolding stage_on slot_of
  Timely-stage_on f ready i c s keeps noted w = Timely-stage f (slot_of ready i c) s keeps noted w

  module _ (n : Node) (pb : Nanopb) (ready : Bool) (i : StageInput) (w : World n pb)
      (noted : i.noted ≤ e) (h : BothTimely e w.sessions) where
    pub BothTimely-own_stage : BothTimely e (own_stage n pb ready i w).1.sessions
    unfolding own_stage
    BothTimely-own_stage = (
      Timely-stage_on _ ready i w.channels.telemetry w.sessions.own
          (KeepsSent-publish_pending_telemetry pb) noted h.0,
      h.1,
    )

    pub BothTimely-relay_telemetry_stage :
        BothTimely e (relay_telemetry_stage n pb ready i w).1.sessions
    unfolding relay_telemetry_stage
    BothTimely-relay_telemetry_stage = (
      h.0,
      Timely-stage_on _ ready i w.channels.relay_telemetry w.sessions.peer
          (KeepsSent-publish_relayed peer_topic_telemetry at_most_once) noted h.1,
    )

    pub BothTimely-relay_ack_stage : BothTimely e (relay_ack_stage n pb ready i w).1.sessions
    unfolding relay_ack_stage
    BothTimely-relay_ack_stage = (
      h.0,
      Timely-stage_on _ ready i w.channels.relay_ack w.sessions.peer
          (KeepsSent-publish_relayed peer_topic_ack at_least_once) noted h.1,
    )

    pub BothTimely-relay_status_stage : BothTimely e (relay_status_stage n pb ready i w).1.sessions
    unfolding relay_status_stage
    BothTimely-relay_status_stage = (
      h.0,
      Timely-stage_on _ ready i w.channels.relay_status w.sessions.peer
          KeepsSent-publish_relayed_status noted h.1,
    )
