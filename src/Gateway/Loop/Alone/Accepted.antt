-- ===== src/Gateway/Loop/Alone/Accepted.antt =====
-- When the loop of gateway/src/main.cpp leaves either of its sessions serving.
use climate_node.Common.{
  ◌≡◌, refl, ap, ◌∙◌, Bool, true, false, ◌&&◌, ◌||◌, List, [], ◌∷◌, map, if_both, leb, arith,
}
use climate_node.Zephyr.{is_success}
use climate_node.Commands.{Node, Dedupe}
use climate_node.Protocol.{Nanopb}
use climate_node.Gateway.{
  NodeSession, MqttCall, peer_topic_telemetry, peer_topic_ack, at_most_once, at_least_once,
}
use climate_node.Gateway.Lifecycle.{
  session_drop, session_connect, SessionInput, is_idle, is_serving, start, look_after,
}
use climate_node.Gateway.Accepted.{accepted, reported, reported_in, accepted-look_after_in}
use climate_node.Gateway.Channels.{Channel}
use climate_node.Gateway.Outgoing.{
  Slot, Sent, stage, publish_pending_telemetry, publish_relayed, publish_relayed_status,
}
use climate_node.Gateway.Loop.{StageInput, Channels, LoopInput, slot_of, stage_on, main_run}
use climate_node.Gateway.Loop.Runs.{booted}
use climate_node.Gateway.Loop.Alone.{
  OwnInput, own_input, OwnSide, own_kept, own_publish, own_pass, own_run, PeerInput, peer_input,
  PeerSide, peer_publish, peer_pass, peer_run,
}
use climate_node.Gateway.Loop.Alone.Blind.{
  Alike, Numbers, Numbers-publish_pending_telemetry, Numbers-publish_relayed,
  Numbers-publish_relayed_status,
}
use climate_node.Gateway.Loop.Alone.Runs.{main_run-sides}

-- Accepted, or there was a reason.
abbrev Excused : Bool → NodeSession → Type 0
Excused reason s = (accepted s || reason) ≡ true

Excused-Alike : (q : Bool) (s s' : NodeSession) → Alike s s' → Excused q s' → Excused q s
Excused-Alike q s s' same h = ap (λ t. accepted t || q) same ∙ h

Excused-start :
    (q : Bool) (i : SessionInput) (s : NodeSession) → Excused q s → Excused q (start i s).1
unfolding start session_connect session_drop
Excused-start q i s h =
    if_both (λ (r : List MqttCall × NodeSession). Excused q r.1)
      (is_idle s.state && leb s.retry_at i.now)
      (if_both (λ (r : List MqttCall × NodeSession). Excused q r.1) (is_success i.connect_rc) refl
        refl)
      h

Excused-look_after :
    (q : Bool) (i : SessionInput) (s : NodeSession)
    → Excused (q || reported i.serving_events) (look_after i s).1
unfolding look_after
Excused-look_after q i s = ground (arith, accepted-look_after_in s.state i s refl)

Excused-stage_on :
    {A : Type 0} (f : Slot A → NodeSession → Sent) (q ready : Bool) (i : StageInput) (c : Channel A)
    (s : NodeSession)
    → Numbers f
    → Excused q s
    → Excused q (stage_on f ready i c s).1
unfolding stage_on stage session_drop
Excused-stage_on f q ready i c s numbers h =
    let x = slot_of ready i c in
    if_both (λ (r : List MqttCall × NodeSession). Excused q r.1) (x.ready && is_serving s.state)
      (if_both (λ (r : List MqttCall × NodeSession). Excused q r.1) (is_success (f x s).2)
        (Excused-Alike q (f x s).1 s (numbers x s).0 h) refl)
      h

Excused-weaken : (q r : Bool) (s : NodeSession) → Excused q s → Excused (q || r) s
Excused-weaken q r s h = ground (arith, h)

Excused-own_pass :
    (pb : Nanopb) (q : Bool) (i : OwnInput) (x : OwnSide)
    → Excused q x.session
    → Excused (q || reported i.session.serving_events) (own_pass pb i x).session
unfolding own_pass own_publish
Excused-own_pass pb q i x h =
    let s = (start i.session x.session).1 in
    if_both (λ (y : OwnSide). Excused (q || reported i.session.serving_events) y.session) i.polls
      (Excused-stage_on (publish_pending_telemetry pb) _ _ i.telemetry _ (own_kept i s)
        (Numbers-publish_pending_telemetry pb) (Excused-look_after q i.session _))
      (Excused-weaken q _ s (Excused-start q i.session x.session h))

Excused-peer_pass :
    (q : Bool) (i : PeerInput) (y : PeerSide)
    → Excused q y.session
    → Excused (q || reported i.session.serving_events) (peer_pass i y).session
unfolding peer_pass peer_publish
Excused-peer_pass q i y h =
    let s = (start i.session y.session).1 in
    if_both (λ (z : PeerSide). Excused (q || reported i.session.serving_events) z.session) i.polls
      (Excused-stage_on publish_relayed_status _ _ i.status _ _ Numbers-publish_relayed_status (
        Excused-stage_on (publish_relayed peer_topic_ack at_least_once) _ _ i.ack _ _
          (Numbers-publish_relayed peer_topic_ack at_least_once)
          (Excused-stage_on (publish_relayed peer_topic_telemetry at_most_once) _ _ i.telemetry _ _
            (Numbers-publish_relayed peer_topic_telemetry at_most_once)
            (Excused-look_after q _ _))))
      (Excused-weaken q _ s (Excused-start q i.session y.session h))

Excused-own_run :
    (pb : Nanopb) (q : Bool) (is : List OwnInput) (x : OwnSide)
    → Excused q x.session
    → Excused (q || reported_in (map (λ (i : OwnInput). i.session) is)) (own_run pb is x).session
unfolding own_run
Excused-own_run pb q [] x h = ground (arith, h)
Excused-own_run pb q (i ∷ is) x h =
    let more = q || reported i.session.serving_events in
    let rest = Excused-own_run pb more is (own_pass pb i x) (Excused-own_pass pb q i x h) in
    ground (arith, rest)

Excused-peer_run :
    (q : Bool) (is : List PeerInput) (y : PeerSide)
    → Excused q y.session
    → Excused (q || reported_in (map (λ (i : PeerInput). i.session) is)) (peer_run is y).session
unfolding peer_run
Excused-peer_run q [] y h = ground (arith, h)
Excused-peer_run q (i ∷ is) y h =
    let more = q || reported i.session.serving_events in
    let rest = Excused-peer_run more is (peer_pass i y) (Excused-peer_pass q i y h) in
    ground (arith, rest)

-- The messages that the library reports while a session comes to serve, in any of some passes.
abbrev pub own_reported : List LoopInput → Bool
own_reported is = reported_in (map (λ (i : OwnInput). i.session) (map own_input is))

abbrev pub peer_reported : List LoopInput → Bool
peer_reported is = reported_in (map (λ (i : PeerInput). i.session) (map peer_input is))

-- After any passes of the loop from its start, whatever both brokers, the network and the other
-- threads do: a session that is left serving has its flag `connected` set, unless the library
-- reported something over the messages of a pass in which that session came to serve.
pub main_run-excused :
    (n : Node) (pb : Nanopb) (is : List LoopInput) (c : Channels) (d : Dedupe) (b : n.Bus)
    → let ss = (main_run n pb is (booted n pb c d b)).1.sessions in
      ((accepted ss.own || own_reported is) ≡ true)
      × ((accepted ss.peer || peer_reported is) ≡ true)
main_run-excused n pb is c d b =
    let w = booted n pb c d b in
    let x : OwnSide = record { session = w.sessions.own; telemetry = c.telemetry } in
    let y : PeerSide = record {
      session = w.sessions.peer;
      telemetry = c.relay_telemetry;
      ack = c.relay_ack;
      status = c.relay_status;
    } in
    let sides = main_run-sides n pb is w x y (refl, refl) (refl, refl, refl, refl) in
    let ss = (main_run n pb is w).1.sessions in
    (
      Excused-Alike _ ss.own (own_run pb (map own_input is) x).session sides.0.0
          (Excused-own_run pb false (map own_input is) x refl),
      Excused-Alike _ ss.peer (peer_run (map peer_input is) y).session sides.1.0
          (Excused-peer_run false (map peer_input is) y refl),
    )
