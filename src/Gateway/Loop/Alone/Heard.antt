-- ===== src/Gateway/Loop/Alone/Heard.antt =====
-- What the broker has told each session about its connection when the loop of gateway/src/main.cpp
-- leaves it serving.
use climate_node.Common.{
  ◌≡◌, refl, Bool, true, false, ◌&&◌, ◌||◌, List, [], ◌∷◌, if_both, arith, Bool-cases,
  if◌then◌else◌, subst, sym, ◌⊎◌, inl, inr, if_along,
}
use climate_node.Zephyr.{is_success}
use climate_node.Commands.{Node, Dedupe}
use climate_node.Protocol.{Nanopb}
use climate_node.Gateway.{
  NodeSession, MqttCall, peer_topic_telemetry, peer_topic_ack, at_most_once, at_least_once,
}
use climate_node.Gateway.Lifecycle.{SessionInput, is_serving, start, Evt, take_input}
use climate_node.Gateway.Accepted.{accepted}
use climate_node.Gateway.Heard.{
  Accepted, Standing, Told, heard_at_start, heard_from_socket, heard_while_served, Told-start,
  Told-take_input, Told-look_after, Told-session_drop,
}
use climate_node.Gateway.Loop.{
  Event, World, main_pass, StageInput, Channels, LoopInput, slot_of, stage_on, main_run,
}
use climate_node.Gateway.Loop.Alone.{
  session_evts, OwnInput, own_input, OwnSide, own_kept, own_publish, own_pass, PeerInput,
  peer_input, PeerSide, peer_publish, peer_pass,
}
use climate_node.Gateway.Loop.Alone.Accepted.{own_reported, peer_reported, main_run-excused}
use climate_node.Gateway.Loop.Alone.Runs.{own-main_pass, peer-main_pass}
use climate_node.Gateway.Channels.{Channel}
use climate_node.Gateway.Outgoing.{
  Slot, Sent, stage, publish_pending_telemetry, publish_relayed, publish_relayed_status,
}
use climate_node.Gateway.Loop.Runs.{booted}
use climate_node.Gateway.Loop.Alone.Blind.{
  Alike, Numbers, Numbers-publish_pending_telemetry, Numbers-publish_relayed,
  Numbers-publish_relayed_status,
}

-- What a session has heard since its last attempt to connect, after a pass: an attempt begins afresh,
-- and if the poll returns, the events of its socket, if that is polled and readable, and what the
-- library reports while the session comes to serve, if it does, are added.
abbrev pub heard_in_pass : Bool → SessionInput → List Event → NodeSession → List Evt → List Evt
heard_in_pass polls i events s es =
    let with_events = record i { events = session_evts events } in
    let s1 = (start i s).1 in
    let s2 = (take_input with_events s1).1 in
    let begun = heard_at_start i s es in
    if polls then heard_while_served i s2 (heard_from_socket with_events s1 begun) else begun

Told-Alike : (es : List Evt) (s s' : NodeSession) → Alike s s' → Told es s' → Told es s
Told-Alike es s s' same h = subst (Told es) (sym same) h

Told-stage_on :
    {A : Type 0} (f : Slot A → NodeSession → Sent) (es : List Evt) (ready : Bool) (i : StageInput)
    (c : Channel A) (s : NodeSession)
    → Numbers f
    → Told es s
    → Told es (stage_on f ready i c s).1
unfolding stage_on stage
Told-stage_on f es ready i c s numbers h =
    let x = slot_of ready i c in
    if_both (λ (r : List MqttCall × NodeSession). Told es r.1) (x.ready && is_serving s.state)
      (if_both (λ (r : List MqttCall × NodeSession). Told es r.1) (is_success (f x s).2)
        (Told-Alike es (f x s).1 s (numbers x s).0 h) (Told-session_drop es (f x s).1 true x.noted))
      h

Told-own_pass :
    (pb : Nanopb) (i : OwnInput) (x : OwnSide) (es : List Evt)
    → Told es x.session
    → Told (heard_in_pass i.polls i.session i.events x.session es) (own_pass pb i x).session
unfolding own_pass own_publish
Told-own_pass pb i x es h =
    let with_events = record i.session { events = session_evts i.events } in
    let s1 = (start i.session x.session).1 in
    let begun = Told-start i.session x.session es h in
    let heard = Told-take_input with_events s1 _ begun in
    let kept = Told-look_after i.session (take_input with_events s1).1 _ heard in
    if_along (λ (fs : List Evt) (y : OwnSide). Told fs y.session) i.polls
      (Told-stage_on (publish_pending_telemetry pb) _ _ i.telemetry _ (own_kept i s1)
        (Numbers-publish_pending_telemetry pb) kept)
      begun

Told-peer_pass :
    (i : PeerInput) (y : PeerSide) (es : List Evt)
    → Told es y.session
    → Told (heard_in_pass i.polls i.session i.events y.session es) (peer_pass i y).session
unfolding peer_pass peer_publish
Told-peer_pass i y es h =
    let with_events = record i.session { events = session_evts i.events } in
    let s1 = (start i.session y.session).1 in
    let begun = Told-start i.session y.session es h in
    let heard = Told-take_input with_events s1 _ begun in
    let s2 = (take_input with_events s1).1 in
    if_along (λ (fs : List Evt) (z : PeerSide). Told fs z.session) i.polls
      (Told-stage_on publish_relayed_status _ _ i.status _ _ Numbers-publish_relayed_status (
        Told-stage_on (publish_relayed peer_topic_ack at_least_once) _ _ i.ack _ _
          (Numbers-publish_relayed peer_topic_ack at_least_once)
          (Told-stage_on (publish_relayed peer_topic_telemetry at_most_once) _ _ i.telemetry _ _
            (Numbers-publish_relayed peer_topic_telemetry at_most_once)
            (Told-look_after (record i.session { status = _ }) s2 _ heard))))
      begun

-- A session that serves was accepted, and there was no loss since unless something was reported.
abbrev pub ServedRightly : List Evt → Bool → NodeSession → Type 0
ServedRightly es reported s =
    (is_serving s.state ≡ false) ⊎ (Accepted es × (Standing es ⊎ (reported ≡ true)))

ServedRightly-Told :
    (es : List Evt) (reported : Bool) (s : NodeSession)
    → Told es s
    → (accepted s || reported) ≡ true
    → ServedRightly es reported s
ServedRightly-Told es reported s (stands, accepts) excused =
    elim (Bool-cases (is_serving s.state)) [
      | inr away ↦ inl away
      | inl serves ↦ inr (
        accepts serves,
        elim (Bool-cases s.connected) [
          | inl on ↦ inl (stands on)
          | inr off ↦ inr (ground (arith, excused, serves, off))
        ],
      )
    ]

module _ (n : Node) (pb : Nanopb) where
  -- What this node's session, and the peer's, have heard since their last attempts, after some passes
  -- of the loop.
  abbrev pub own_heard : List LoopInput → World n pb → List Evt → List Evt
  own_heard [] w es = es
  own_heard (i ∷ is) w es =
      own_heard is (main_pass n pb i w).1
        (heard_in_pass i.polls i.own i.own_events w.sessions.own es)

  abbrev pub peer_heard : List LoopInput → World n pb → List Evt → List Evt
  peer_heard [] w es = es
  peer_heard (i ∷ is) w es =
      peer_heard is (main_pass n pb i w).1
        (heard_in_pass i.polls i.peer i.peer_events w.sessions.peer es)

  Told-main_pass :
      (i : LoopInput) (w : World n pb) (own peer : List Evt)
      → Told own w.sessions.own
      → Told peer w.sessions.peer
      → let ss = (main_pass n pb i w).1.sessions in
        Told (heard_in_pass i.polls i.own i.own_events w.sessions.own own) ss.own
        × Told (heard_in_pass i.polls i.peer i.peer_events w.sessions.peer peer) ss.peer
  Told-main_pass i w own peer h k =
      let c = w.channels in
      let x : OwnSide = record { session = w.sessions.own; telemetry = c.telemetry } in
      let y : PeerSide = record {
        session = w.sessions.peer;
        telemetry = c.relay_telemetry;
        ack = c.relay_ack;
        status = c.relay_status;
      } in
      let ss = (main_pass n pb i w).1.sessions in
      (
        Told-Alike _ ss.own (own_pass pb (own_input i) x).session
            (own-main_pass n pb i w x (refl, refl)).0 (Told-own_pass pb (own_input i) x own h),
        Told-Alike _ ss.peer (peer_pass (peer_input i) y).session
            (peer-main_pass n pb i w y (refl, refl, refl, refl)).0
            (Told-peer_pass (peer_input i) y peer k),
      )

  Told-main_run :
      (is : List LoopInput) (w : World n pb) (own peer : List Evt)
      → Told own w.sessions.own
      → Told peer w.sessions.peer
      → let ss = (main_run n pb is w).1.sessions in
        Told (own_heard is w own) ss.own × Told (peer_heard is w peer) ss.peer
  unfolding main_run
  Told-main_run [] w own peer h k = (h, k)
  Told-main_run (i ∷ is) w own peer h k =
      let next = Told-main_pass i w own peer h k in
      Told-main_run is (main_pass n pb i w).1 _ _ next.0 next.1

  -- After any passes of the loop from its start, whatever both brokers, the network and the other
  -- threads do: if a session is left serving, then since its last attempt to connect a CONNACK without
  -- an error was reported to it, and no DISCONNECT after that, the latter unless the library reported
  -- something over the messages of a pass in which that session came to serve.
  pub main_run-accepted :
      (is : List LoopInput) (c : Channels) (d : Dedupe) (b : n.Bus)
      → let w = booted n pb c d b in
        let ss = (main_run n pb is w).1.sessions in
        ServedRightly (own_heard is w []) (own_reported is) ss.own
        × ServedRightly (peer_heard is w []) (peer_reported is) ss.peer
  main_run-accepted is c d b =
      let w = booted n pb c d b in
      let ss = (main_run n pb is w).1.sessions in
      let nothing : (s : NodeSession)
          → s.connected ≡ false
          → is_serving s.state ≡ false
          → Told [] s =
        λ s off away. ((λ h. absurd (ground arith)), (λ h. absurd (ground arith))) in
      let told =
        Told-main_run is w [] [] (nothing w.sessions.own refl refl)
          (nothing w.sessions.peer refl refl) in
      let excused = main_run-excused n pb is c d b in
      (
        ServedRightly-Told (own_heard is w []) (own_reported is) ss.own told.0 excused.0,
        ServedRightly-Told (peer_heard is w []) (peer_reported is) ss.peer told.1 excused.1,
      )
