-- ===== src/Gateway/Loop/Policy/Runs.antt =====
-- The policy over any number of passes of the main loop of gateway/src/main.cpp.
use climate_node.Common.{◌≡◌, sym, subst, if◌then◌else◌, true, false, List, [], ◌∷◌, if_both}
use climate_node.Common.Decimal.{All}
use climate_node.Commands.{Node}
use climate_node.Protocol.{Nanopb}
use climate_node.Gateway.{own_config, peer_config}
use climate_node.Gateway.Lifecycle.{start, look_after}
use climate_node.Gateway.Poll.{PollSet, poll_set}
use climate_node.Gateway.Loop.{
  ◌>>◌, Channels, LoopInput, is_ready, World, Part, on_session, read_socket, others_publish,
  look_after_peer, own_stage, relay_telemetry_stage, relay_ack_stage, relay_status_stage,
  start_both, after_poll, main_pass, main_run,
}
use climate_node.Gateway.Loop.Policy.{
  FollowsAct, HasTopics, own_config-HasTopics, peer_config-HasTopics, Kinds,
}
use climate_node.Gateway.Loop.Policy.Sessions.{Sound-start, Sound-look_after}
use climate_node.Gateway.Loop.Policy.Incoming.{BothTopics}
use climate_node.Gateway.Loop.Policy.Held.{Hold, Brings, BringsAll}
use climate_node.Gateway.Loop.Policy.Parts.{
  Keeps, Keeps->>, Keeps-on_session, Keeps-read_socket, Keeps-own_stage,
  Keeps-relay_telemetry_stage, Keeps-relay_ack_stage, Keeps-relay_status_stage,
  Keeps-others_publish, Keeps-look_after_peer, FollowsWorld,
}

module _ (n : Node) (pb : Nanopb) (kinds : Kinds) where
  infixl 5 ◌then◌
  abbrev ◌then◌ : Part n pb → Part n pb → Part n pb
  ◌then◌ = ◌>>◌ n pb

  Keeps-start_both : (i : LoopInput) → Brings kinds i.news → Keeps n pb kinds (start_both n pb i)
  unfolding start_both
  Keeps-start_both i brings =
      let own = on_session n pb false (start i.own) in
      let peer = on_session n pb true (start i.peer) in
      let both =
        Keeps->> n pb kinds own peer
          (Keeps-on_session n pb kinds false _ (Sound-start pb kinds i.own))
          (Keeps-on_session n pb kinds true _ (Sound-start pb kinds i.peer)) in
      Keeps->> n pb kinds (own then peer) (others_publish n pb i.news) both
        (Keeps-others_publish n pb kinds i.news brings)

  -- What is heard and looked after; then what is published.
  Keeps-after_poll :
      (i : LoopInput) (p : PollSet) (polled : Channels)
      → Brings kinds i.late_news
      → Keeps n pb kinds (after_poll n pb i p polled)
  unfolding after_poll
  Keeps-after_poll i p polled brings =
      let f1 = read_socket n pb false p.own_sock i.own i.own_events in
      let f2 = read_socket n pb true p.peer_sock i.peer i.peer_events in
      let f3 = on_session n pb false (look_after i.own) in
      let f4 = look_after_peer n pb i in
      let f5 = others_publish n pb i.late_news in
      let f6 = own_stage n pb (is_ready p.own_telemetry polled.telemetry) i.telemetry in
      let f7 =
        relay_telemetry_stage n pb (is_ready p.relay_telemetry polled.relay_telemetry)
          i.relay_telemetry in
      let f8 = relay_ack_stage n pb (is_ready p.relay_ack polled.relay_ack) i.relay_ack in
      let f9 =
        relay_status_stage n pb (is_ready p.relay_status polled.relay_status) i.relay_status in
      let k2 =
        Keeps->> n pb kinds f1 f2 (Keeps-read_socket n pb kinds false p.own_sock i.own i.own_events)
          (Keeps-read_socket n pb kinds true p.peer_sock i.peer i.peer_events) in
      let k3 =
        Keeps->> n pb kinds (f1 then f2) f3 k2
          (Keeps-on_session n pb kinds false _ (Sound-look_after pb kinds i.own)) in
      let k4 =
        Keeps->> n pb kinds (f1 then f2 then f3) f4 k3 (Keeps-look_after_peer n pb kinds i) in
      let k5 =
        Keeps->> n pb kinds (f1 then f2 then f3 then f4) f5 k4
          (Keeps-others_publish n pb kinds i.late_news brings) in
      let k6 =
        Keeps->> n pb kinds (f1 then f2 then f3 then f4 then f5) f6 k5
          (Keeps-own_stage n pb kinds _ i.telemetry) in
      let k7 =
        Keeps->> n pb kinds (f1 then f2 then f3 then f4 then f5 then f6) f7 k6
          (Keeps-relay_telemetry_stage n pb kinds _ i.relay_telemetry) in
      let k8 =
        Keeps->> n pb kinds (f1 then f2 then f3 then f4 then f5 then f6 then f7) f8 k7
          (Keeps-relay_ack_stage n pb kinds _ i.relay_ack) in
      Keeps->> n pb kinds (f1 then f2 then f3 then f4 then f5 then f6 then f7 then f8) f9 k8
        (Keeps-relay_status_stage n pb kinds _ i.relay_status)

  Keeps-main_pass :
      (i : LoopInput)
      → Brings kinds i.news
      → Brings kinds i.late_news
      → Keeps n pb kinds (main_pass n pb i)
  unfolding main_pass
  Keeps-main_pass i brings late =
      Keeps->> n pb kinds (start_both n pb i)
        (λ w. if i.polls then after_poll n pb i (poll_set w.sessions) w.channels w else ([], w))
        (Keeps-start_both i brings)
        (λ w h.
          if_both (FollowsWorld n pb kinds) i.polls
            (Keeps-after_poll i (poll_set w.sessions) w.channels late w h) (tt, h))

  Keeps-main_run : (is : List LoopInput) → BringsAll kinds is → Keeps n pb kinds (main_run n pb is)
  unfolding main_run
  Keeps-main_run [] all w h = (tt, h)
  Keeps-main_run (i ∷ is) (brings, late, all) w h =
      Keeps->> n pb kinds (main_pass n pb i) (main_run n pb is) (Keeps-main_pass i brings late)
        (Keeps-main_run is all) w h

  -- Over any passes of the loop over the two sessions, in any state with their own configurations,
  -- whatever the broker sends and the network does: each publish carries an encoded reading, of the
  -- ones on the channel of readings, or the bytes of a message on the channel of relayed readings,
  -- and goes out on a telemetry topic, the peer's if it is relayed, at QoS 0, not retained, without a
  -- packet identifier; or it carries an Ack that this node encodes or the bytes of a message on the
  -- channel of relayed Acks, and goes out on an Ack topic, the peer's if it is relayed, at QoS 1, not
  -- retained; or it carries "online" or "offline", on a status topic, at QoS 1, retained, as is each
  -- will. And each identifier of a publish at QoS 1 or a subscription is a nonzero number of 16 bits,
  -- also after the counter wraps. What is sent from a channel is a message of that channel: `kinds`
  -- is any claim on the messages of each of the three channels, and if it holds of what the channel
  -- holds at the start and of each message that a thread publishes there, it holds of what is sent
  -- from it.
  pub main_run-FollowsAct :
      (is : List LoopInput) (w : World n pb)
      → w.sessions.own.config ≡ own_config
      → w.sessions.peer.config ≡ peer_config
      → Hold kinds w.channels
      → BringsAll kinds is
      → All (FollowsAct pb kinds) (main_run n pb is w).0
  main_run-FollowsAct is w own peer held all =
      let topics : BothTopics w.sessions = (
        subst HasTopics (sym own) own_config-HasTopics,
        subst HasTopics (sym peer) peer_config-HasTopics,
      ) in
      (Keeps-main_run is all w (topics, held)).0
