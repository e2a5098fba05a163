-- ===== src/Gateway/Loop/Alone/Sides.antt =====
-- A pass over both sessions of gateway/src/main.cpp, before its poll and after it, beside the pass
-- over each session alone.
use climate_node.Common.{
  ℕ, ◌≡◌, refl, sym, ap, ◌∙◌, Bool, true, false, not, ◌&&◌, List, Option, none, some,
}
use climate_node.Commands.{Node}
use climate_node.Protocol.{Nanopb}
use climate_node.Gateway.{
  peer_topic_telemetry, peer_topic_ack, at_most_once, at_least_once, NodeSession,
}
use climate_node.Gateway.Lifecycle.{is_idle, is_serving, start, take_input, look_after}
use climate_node.Gateway.Outgoing.{
  publish_pending_telemetry, publish_relayed, publish_relayed_status,
}
use climate_node.Gateway.Channels.{Channel, chan_pubs, has_events, chan_read}
use climate_node.Gateway.Poll.{Descriptor, Watches, poll_set, poll_set_lem}
use climate_node.Gateway.Loop.{
  Channels, LoopInput, World, is_slot, on_session, arrive, others_publish, look_after_peer,
  own_stage, relay_telemetry_stage, relay_ack_stage, relay_status_stage, start_both, read_socket,
  after_poll,
}
use climate_node.Gateway.Loop.Alone.{
  session_evts, own_input, OwnSide, own_start, own_publish, peer_input, PeerSide, peer_start,
  peer_publish,
}
use climate_node.Gateway.Loop.Alone.Blind.{
  unnumbered, Alike, Blind-Alike, Blind-start, Blind-take_input, Blind-look_after,
  Numbers-publish_pending_telemetry, Numbers-publish_relayed, Numbers-publish_relayed_status,
  stage_on-Alike,
}
use climate_node.Gateway.Loop.Alone.Parts.{read_socket-Leaves}

slot_watched :
    (wanted : Bool) (d : Descriptor) (slot : Option ℕ) (fds : List Descriptor)
    → Watches wanted d slot fds
    → is_slot slot ≡ wanted
slot_watched wanted d none fds h = sym h
slot_watched wanted d (some k) fds h = sym h.0

ready_for :
    {A : Type 0} (slot : Option ℕ) (serves : Bool) (c c' : Channel A)
    → is_slot slot ≡ serves
    → c ≡ c'
    → (is_slot slot && has_events c) ≡ (serves && has_events c')
ready_for slot serves c c' e e' = rw (e, e') refl

module _ (n : Node) (pb : Nanopb) where
  abbrev heard_own : LoopInput → NodeSession → NodeSession
  heard_own i s = (take_input (record i.own { events = session_evts i.own_events }) s).1

  abbrev heard_peer : LoopInput → NodeSession → NodeSession
  heard_peer i s = (take_input (record i.peer { events = session_evts i.peer_events }) s).1

  -- Both sessions once both sockets were read, with the channels as they were.
  both_read :
      (i : LoopInput) (w : World n pb)
      → let p = poll_set w.sessions in
        let w1 = (read_socket n pb false p.own_sock i.own i.own_events w).1 in
        let w2 = (read_socket n pb true p.peer_sock i.peer i.peer_events w1).1 in
        Alike w2.sessions.own (heard_own i w.sessions.own)
        × Alike w2.sessions.peer (heard_peer i w.sessions.peer)
        × (w2.channels ≡ w.channels)
  both_read i w =
      let p = poll_set w.sessions in
      let watches = poll_set_lem w.sessions in
      let w1 : World n pb = (read_socket n pb false p.own_sock i.own i.own_events w).1 in
      let own_polled = slot_watched _ _ p.own_sock p.fds watches.0 in
      let peer_polled = slot_watched _ _ p.peer_sock p.fds watches.1 in
      let first = read_socket-Leaves n pb false p.own_sock i.own i.own_events w own_polled in
      let still = ap (λ (x : NodeSession). not (is_idle x.state)) (sym first.0.1) in
      let second =
        read_socket-Leaves n pb true p.peer_sock i.peer i.peer_events w1 (peer_polled ∙ still) in
      (
        second.0.0 ∙ first.0.0,
        second.0.1
            ∙ Blind-Alike (take_input (record i.peer { events = session_evts i.peer_events }))
                (Blind-take_input _) w1.sessions.peer w.sessions.peer first.0.1,
        second.1 ∙ first.1,
      )

  abbrev pub OwnSees : World n pb → OwnSide → Type 0
  OwnSees w x = Alike w.sessions.own x.session × (w.channels.telemetry ≡ x.telemetry)

  abbrev pub PeerSees : World n pb → PeerSide → Type 0
  PeerSees w y =
      Alike w.sessions.peer y.session
      × (w.channels.relay_telemetry ≡ y.telemetry)
      × (w.channels.relay_ack ≡ y.ack)
      × (w.channels.relay_status ≡ y.status)

  pub own-start_both :
      (i : LoopInput) (w : World n pb) (x : OwnSide)
      → OwnSees w x
      → OwnSees (start_both n pb i w).1 (own_start (own_input i) x)
  unfolding start_both on_session others_publish arrive
  own-start_both i w x sees = (
    Blind-Alike (start i.own) (Blind-start i.own) w.sessions.own x.session sees.0,
    ap (chan_pubs i.news.telemetry) sees.1,
  )

  pub peer-start_both :
      (i : LoopInput) (w : World n pb) (y : PeerSide)
      → PeerSees w y
      → PeerSees (start_both n pb i w).1 (peer_start (peer_input i) y)
  unfolding start_both on_session others_publish arrive
  peer-start_both i w y sees = (
    Blind-Alike (start i.peer) (Blind-start i.peer) w.sessions.peer y.session sees.0,
    ap (chan_pubs i.news.relay_telemetry) sees.1,
    ap (chan_pubs i.news.relay_ack) sees.2,
    ap (chan_pubs i.news.relay_status) sees.3,
  )

  abbrev after : LoopInput → World n pb → World n pb
  after i w = (after_poll n pb i (poll_set w.sessions) w.channels w).1

  pub own-after_poll :
      (i : LoopInput) (w : World n pb) (x : OwnSide)
      → OwnSees w x
      → OwnSees (after i w) (own_publish pb (own_input i) x)
  unfolding after_poll on_session look_after_peer others_publish arrive own_stage
      relay_telemetry_stage relay_ack_stage relay_status_stage own_publish
  own-after_poll i w x sees =
      let p = poll_set w.sessions in
      let w1 : World n pb = (read_socket n pb false p.own_sock i.own i.own_events w).1 in
      let w2 : World n pb = (read_socket n pb true p.peer_sock i.peer i.peer_events w1).1 in
      let read = both_read i w in
      let heard =
        read.0
        ∙ Blind-Alike (take_input (record i.own { events = session_evts i.own_events }))
            (Blind-take_input _) w.sessions.own x.session sees.0 in
      let kept =
        Blind-Alike (look_after i.own) (Blind-look_after i.own) w2.sessions.own
          (heard_own i x.session) heard in
      let watched = slot_watched _ _ p.own_telemetry p.fds (poll_set_lem w.sessions).2 in
      let serves = watched ∙ ap (λ (s : NodeSession). is_serving s.state) sees.0 in
      let ready = ready_for p.own_telemetry _ _ _ serves sees.1 in
      let channel =
        ap (λ (c : Channels). chan_pubs i.late_news.telemetry c.telemetry) read.2
        ∙ ap (chan_pubs i.late_news.telemetry) sees.1 in
      stage_on-Alike (publish_pending_telemetry pb) _ _ i.telemetry _ _ _ _
        (Numbers-publish_pending_telemetry pb) ready channel kept

  pub peer-after_poll :
      (i : LoopInput) (w : World n pb) (y : PeerSide)
      → PeerSees w y
      → PeerSees (after i w) (peer_publish (peer_input i) y)
  unfolding after_poll on_session look_after_peer others_publish arrive own_stage
      relay_telemetry_stage relay_ack_stage relay_status_stage peer_publish
  peer-after_poll i w y sees =
      let p = poll_set w.sessions in
      let watches = poll_set_lem w.sessions in
      let w1 : World n pb = (read_socket n pb false p.own_sock i.own i.own_events w).1 in
      let w2 : World n pb = (read_socket n pb true p.peer_sock i.peer i.peer_events w1).1 in
      let read = both_read i w in
      let heard =
        read.1
        ∙ Blind-Alike (take_input (record i.peer { events = session_evts i.peer_events }))
            (Blind-take_input _) w.sessions.peer y.session sees.0 in
      let status = ap (λ (c : Channels). c.relay_status) read.2 ∙ sees.3 in
      let kept =
        Blind-Alike
          (look_after
            (record i.peer { status = chan_read i.can_read_status w2.channels.relay_status }))
          (Blind-look_after _) w2.sessions.peer (heard_peer i y.session) heard
        ∙ ap
            (λ c.
              unnumbered
                (look_after (record i.peer { status = chan_read i.can_read_status c })
                  (heard_peer i y.session)).1)
            status in
      let serves = ap (λ (s : NodeSession). is_serving s.state) sees.0 in
      let first =
        stage_on-Alike (publish_relayed peer_topic_telemetry at_most_once) _ _ i.relay_telemetry _ _
          _ _ (Numbers-publish_relayed peer_topic_telemetry at_most_once)
          (ready_for p.relay_telemetry _ _ _
            (slot_watched _ _ p.relay_telemetry p.fds watches.3 ∙ serves) sees.1)
          (ap (λ (c : Channels). chan_pubs i.late_news.relay_telemetry c.relay_telemetry) read.2
            ∙ ap (chan_pubs i.late_news.relay_telemetry) sees.1)
          kept in
      let second =
        stage_on-Alike (publish_relayed peer_topic_ack at_least_once) _ _ i.relay_ack _ _ _ _
          (Numbers-publish_relayed peer_topic_ack at_least_once)
          (ready_for p.relay_ack _ _ _ (slot_watched _ _ p.relay_ack p.fds watches.4 ∙ serves)
            sees.2)
          (ap (λ (c : Channels). chan_pubs i.late_news.relay_ack c.relay_ack) read.2
            ∙ ap (chan_pubs i.late_news.relay_ack) sees.2)
          first.0 in
      let third =
        stage_on-Alike publish_relayed_status _ _ i.relay_status _ _ _ _
          Numbers-publish_relayed_status
          (ready_for p.relay_status _ _ _ (slot_watched _ _ p.relay_status p.fds watches.5 ∙ serves)
            sees.3)
          (ap (chan_pubs i.late_news.relay_status) status) second.0 in
      (third.0, first.1, second.1, third.1)
