-- ===== src/Gateway/Loop/Policy/Incoming.antt =====
-- The policy for what a message from the broker makes gateway/src/main.cpp send.
use climate_node.Common.{
  ℕ, refl, inl, inr, Bool, true, false, List, [], ◌∷◌, Option, if_both, length, ◌==◌, ltb,
}
use climate_node.Common.Decimal.{All, All-append}
use climate_node.Zephyr.{Rc, is_success}
use climate_node.Commands.{Node, Dedupe, DeviceInfo, AckStatus, Command}
use climate_node.Protocol.{Nanopb, encode_ack, decode_command}
use climate_node.Gateway.{
  peer_topic_command, Qos, at_least_once, at_most_once, NodeSession, MqttCall,
}
use climate_node.Gateway.Incoming.{
  Sessions, session_of, with_session, Act, topic_is, PublishEvt, puback, publish_ack,
  forward_to_peer, carry_out, after_reading,
}
use climate_node.Gateway.Loop.{calls_of}
use climate_node.Gateway.Loop.Policy.{Kinds, IsAckTopic, Follows, FollowsAct, HasTopics}
use climate_node.Gateway.Loop.Policy.Sessions.{publish-IsAck}

abbrev pub BothTopics : Sessions → Type 0
BothTopics ss = HasTopics ss.own.config × HasTopics ss.peer.config

pub HasTopics-session_of :
    (which : Bool) (ss : Sessions) → BothTopics ss → HasTopics (session_of which ss).config
HasTopics-session_of true ss h = h.1
HasTopics-session_of false ss h = h.0

pub BothTopics-with_session :
    (which : Bool) (s : NodeSession) (ss : Sessions)
    → HasTopics s.config
    → BothTopics ss
    → BothTopics (with_session which s ss)
BothTopics-with_session true s ss t h = (h.0, t)
BothTopics-with_session false s ss t h = (t, h.1)

pub calls_of-FollowsAct :
    (pb : Nanopb) (kinds : Kinds) (which : Bool) (calls : List MqttCall)
    → All (Follows pb kinds) calls
    → All (FollowsAct pb kinds) (calls_of which calls)
calls_of-FollowsAct pb kinds which [] h = tt
calls_of-FollowsAct pb kinds which (c ∷ calls) h =
    (h.0, calls_of-FollowsAct pb kinds which calls h.1)

module _ (n : Node) (pb : Nanopb) (kinds : Kinds) where
  abbrev Obeys : Act → Type 0
  Obeys = FollowsAct pb kinds

  abbrev FollowsActs : List Act × Sessions → Type 0
  FollowsActs (acts, ss) = All Obeys acts × BothTopics ss

  FollowsActs-publish_ack :
      (which : Bool) (topic : List ℕ) (seq : ℕ) (status : AckStatus) (detail : Option (List ℕ))
      (info : Option DeviceInfo) (ss : Sessions)
      → IsAckTopic topic
      → BothTopics ss
      → FollowsActs (publish_ack n pb which topic seq status detail info ss)
  unfolding publish_ack
  FollowsActs-publish_ack which topic seq status detail info ss t h =
      let buf = encode_ack pb seq status detail info pb.ack_size in
      let out =
        publish-IsAck pb kinds (session_of which ss) buf (HasTopics-session_of which ss h) topic
          (inl (t, seq, status, detail, info, refl)) in
      if_both FollowsActs (length buf == 0) (tt, h)
        ((out.0, tt), BothTopics-with_session which _ ss out.1 h)

  FollowsActs-forward_to_peer :
      (payload : List ℕ) (seq : ℕ) (rc : Rc) (ss : Sessions)
      → BothTopics ss
      → FollowsActs (forward_to_peer n pb payload seq rc ss)
  unfolding forward_to_peer
  FollowsActs-forward_to_peer payload seq rc ss h =
      if_both FollowsActs (ltb 24 (length payload))
        (FollowsActs-publish_ack _ _ _ _ _ _ ss (inr refl) h)
        (if_both FollowsActs (is_success rc) ((tt, tt), h)
          (FollowsActs-publish_ack _ _ _ _ _ _ ss (inr refl) h))

  abbrev FollowsAll : List Act × Sessions × Dedupe × n.Bus → Type 0
  FollowsAll (acts, ss, d, b) = All Obeys acts × BothTopics ss

  FollowsAll-carry_out :
      (which for_peer : Bool) (decoded : Bool × Command) (payload : List ℕ) (oversized : Bool)
      (rc : Rc) (ss : Sessions) (d : Dedupe) (b : n.Bus)
      → BothTopics ss
      → FollowsAll (carry_out n pb which for_peer decoded payload oversized rc ss d b)
  unfolding carry_out
  FollowsAll-carry_out which for_peer (false, cmd) payload oversized rc ss d b h =
      FollowsActs-publish_ack _ _ _ _ _ _ ss
        (if_both IsAckTopic for_peer (inr refl) (HasTopics-session_of which ss h).1) h
  FollowsAll-carry_out which true (true, cmd) payload oversized rc ss d b h =
      FollowsActs-forward_to_peer payload cmd.sequence rc ss h
  FollowsAll-carry_out which false (true, cmd) payload oversized rc ss d b h =
      FollowsActs-publish_ack _ _ _ _ _ _ ss (HasTopics-session_of which ss h).1 h

  puback-FollowsAct : (which : Bool) (qos : Qos) (id : ℕ) → All Obeys (puback n pb which qos id)
  puback-FollowsAct which at_least_once id = (tt, tt)
  puback-FollowsAct which at_most_once id = tt

  pub FollowsAll-after_reading :
      (which : Bool) (e : PublishEvt) (payload : List ℕ) (rc : Rc) (ss : Sessions) (d : Dedupe)
      (b : n.Bus)
      → BothTopics ss
      → FollowsAll (after_reading n pb which e payload rc ss d b)
  unfolding after_reading
  FollowsAll-after_reading which e payload rc ss d b h =
      let done =
        FollowsAll-carry_out which (topic_is e.topic peer_topic_command)
          (decode_command pb payload (ltb 128 e.len)) payload (ltb 128 e.len) rc ss d b h in
      (All-append Obeys _ _ (puback-FollowsAct which e.qos e.message_id) done.0, done.1)
