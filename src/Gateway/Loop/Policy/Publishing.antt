-- ===== src/Gateway/Loop/Policy/Publishing.antt =====
-- The policy for the publishing stages of gateway/src/main.cpp.
use climate_node.Common.{inl, inr, refl, true, ◌&&◌, Option, none, some, if_both, length, ◌==◌}
use climate_node.Common.Decimal.{All, All-append}
use climate_node.Zephyr.{is_success}
use climate_node.Protocol.{Nanopb, encode_telemetry}
use climate_node.Relay.{RelayStatus}
use climate_node.Gateway.{
  peer_topic_telemetry, peer_topic_ack, peer_topic_status, at_most_once, at_least_once, NodeSession,
}
use climate_node.Gateway.Lifecycle.{status_text, is_serving}
use climate_node.Gateway.Outgoing.{
  Slot, Sent, if_read, when_signalled, publish_pending_telemetry, publish_relayed,
  publish_relayed_status, stage,
}
use climate_node.Gateway.Loop.Policy.{Kinds, HasTopics}
use climate_node.Gateway.Loop.Policy.Sessions.{
  Sends, Sound, publish-IsTelemetry, publish-IsAck, publish-IsStatus, Sound-session_drop,
}

module _ (pb : Nanopb) (kinds : Kinds) where
  -- What a stage sends, before its result is looked at.
  abbrev pub SoundSent : Sent → Type 0
  SoundSent (calls, s, rc) = All (Sends pb kinds) calls × HasTopics s.config

  -- What is claimed of a value that was read, if it was.
  abbrev pub IfRead : {A : Type 0} → (A → Type 0) → Option A → Type 0
  IfRead P none = Unit {0}
  IfRead P (some a) = P a

  abbrev pub SendsSoundly : {A : Type 0} → (A → Type 0) → (Slot A → NodeSession → Sent) → Type 0
  SendsSoundly {A} P f =
      (x : Slot A) (s : NodeSession) → IfRead P x.value → HasTopics s.config → SoundSent (f x s)

  SoundSent-when_signalled :
      {A : Type 0} (P : A → Type 0) (x : Slot A) (s : NodeSession) (f : A → Sent)
      → ((a : A) → P a → SoundSent (f a))
      → IfRead P x.value
      → HasTopics s.config
      → SoundSent (when_signalled x s f)
  unfolding when_signalled
  SoundSent-when_signalled {A} P x s f k v h =
      if_both SoundSent x.signalled (SoundSent-if_read x.value v) (tt, h)
    where
      SoundSent-if_read : (o : Option A) → IfRead P o → SoundSent (if_read x s f o)
      SoundSent-if_read none u = (tt, h)
      SoundSent-if_read (some a) u = k a u

  pub SendsSoundly-publish_pending_telemetry :
      SendsSoundly kinds.reading (publish_pending_telemetry pb)
  unfolding publish_pending_telemetry
  SendsSoundly-publish_pending_telemetry x s v h =
      SoundSent-when_signalled kinds.reading x s _
        (λ r u.
          let bytes = encode_telemetry pb r pb.telemetry_size in
          let out =
            publish-IsTelemetry pb kinds s bytes h s.config.topic_telemetry
              (inl (h.0, r, u, refl)) in
          if_both SoundSent (length bytes == 0) (tt, h) ((out.0, tt), out.1))
        v h

  pub SendsSoundly-publish_relayed_telemetry :
      SendsSoundly kinds.telemetry (publish_relayed peer_topic_telemetry at_most_once)
  unfolding publish_relayed
  SendsSoundly-publish_relayed_telemetry x s v h =
      SoundSent-when_signalled kinds.telemetry x s _
        (λ up u.
          let out =
            publish-IsTelemetry pb kinds s up.bytes h peer_topic_telemetry
              (inr (refl, up, u, refl)) in
          ((out.0, tt), out.1))
        v h

  pub SendsSoundly-publish_relayed_ack :
      SendsSoundly kinds.ack (publish_relayed peer_topic_ack at_least_once)
  unfolding publish_relayed
  SendsSoundly-publish_relayed_ack x s v h =
      SoundSent-when_signalled kinds.ack x s _
        (λ up u.
          let out = publish-IsAck pb kinds s up.bytes h peer_topic_ack (inr (refl, up, u, refl)) in
          ((out.0, tt), out.1))
        v h

  abbrev pub AnyStatus : RelayStatus → Type 0
  AnyStatus st = Unit {0}

  pub SendsSoundly-publish_relayed_status : SendsSoundly AnyStatus publish_relayed_status
  unfolding publish_relayed_status
  SendsSoundly-publish_relayed_status x s v h =
      SoundSent-when_signalled AnyStatus x s _
        (λ st u.
          let text = status_text st.online in
          let out =
            publish-IsStatus pb kinds s text h peer_topic_status (inr refl, st.online, refl) in
          ((out.0, tt), out.1))
        v h

  pub Sound-stage :
      {A : Type 0} (P : A → Type 0) (f : Slot A → NodeSession → Sent) (x : Slot A) (s : NodeSession)
      → SendsSoundly P f
      → IfRead P x.value
      → HasTopics s.config
      → Sound pb kinds (stage f x s)
  unfolding stage
  Sound-stage P f x s k v h =
      let out = k x s v h in
      let dropped = Sound-session_drop pb kinds (f x s).1 true x.noted out.1 in
      if_both (Sound pb kinds) (x.ready && is_serving s.state)
        (if_both (Sound pb kinds) (is_success (f x s).2) out
          (All-append (Sends pb kinds) _ _ out.0 dropped.0, dropped.1))
        (tt, h)
