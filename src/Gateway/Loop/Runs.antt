-- ===== src/Gateway/Loop/Runs.antt =====
-- What any number of passes of the loop of gateway/src/main.cpp keeps of both sessions.
use climate_node.Common.{
  ℕ, ◌≤◌, ◌≡◌, true, false, List, [], ◌∷◌, if_both, arith, ◌⊎◌, none, Option, ◌+◌, ◌^◌,
}
use climate_node.Commands.{Node, Dedupe}
use climate_node.Protocol.{Nanopb}
use climate_node.Gateway.{session_at_boot, own_config, peer_config}
use climate_node.Gateway.Lifecycle.{start, look_after, SessionInput}
use climate_node.Gateway.Pass.{Timely-start, Timely-look_after}
use climate_node.Gateway.Deadline.{
  Watched, next_deadline_ms, CoversAll, Meets, FitsInt, next_deadline_ms_lem,
}
use climate_node.Gateway.Incoming.{Sessions, Act}
use climate_node.Gateway.Poll.{PollSet}
use climate_node.Gateway.Loop.{
  Channels, LoopInput, World, others_publish, look_after_peer, start_both, after_poll, main_pass,
  main_run,
}
use climate_node.Gateway.Loop.Invariant.{BothTimely, Keeps-on_session, Keeps-read_socket}
use climate_node.Gateway.Loop.Stages.{
  BothTimely-own_stage, BothTimely-relay_telemetry_stage, BothTimely-relay_ack_stage,
  BothTimely-relay_status_stage,
}

-- No uptime that a session of a pass reads is after `e`.
abbrev pub ReadBy : ℕ → SessionInput → Type 0
ReadBy e i = (i.connect_noted ≤ e) × (i.input_noted ≤ e) × (i.drop_noted ≤ e)

abbrev pub PassedBy : ℕ → LoopInput → Type 0
PassedBy e i =
    ReadBy e i.own
    × ReadBy e i.peer
    × (i.telemetry.noted ≤ e)
    × (i.relay_telemetry.noted ≤ e)
    × (i.relay_ack.noted ≤ e)
    × (i.relay_status.noted ≤ e)

abbrev pub AllPassedBy : ℕ → List LoopInput → Type 0
AllPassedBy e [] = Unit {0}
AllPassedBy e (i ∷ is) = PassedBy e i × AllPassedBy e is

-- The sessions before the first pass.
abbrev pub sessions_at_boot : Sessions
sessions_at_boot = record { own = session_at_boot own_config; peer = session_at_boot peer_config }

module _ (n : Node) (pb : Nanopb) where
  -- The world before the first pass.
  abbrev pub booted : Channels → Dedupe → n.Bus → World n pb
  booted channels d b = record {
    sessions = sessions_at_boot;
    channels = channels;
    dedupe = d;
    bus = b;
  }

module _ (e : ℕ) (n : Node) (pb : Nanopb) where
  abbrev SoundWorld : List Act × World n pb → Type 0
  SoundWorld r = BothTimely e r.1.sessions

  BothTimely-after_poll :
      (i : LoopInput) (p : PollSet) (polled : Channels) (w : World n pb)
      → PassedBy e i
      → BothTimely e w.sessions
      → BothTimely e (after_poll n pb i p polled w).1.sessions
  unfolding after_poll others_publish look_after_peer
  BothTimely-after_poll i p polled w h b =
      let k1 = Keeps-read_socket e n pb false p.own_sock i.own i.own_events h.0.1 w b in
      let k2 = Keeps-read_socket e n pb true p.peer_sock i.peer i.peer_events h.1.1 _ k1 in
      let k3 =
        Keeps-on_session e n pb false (look_after i.own)
          (λ s t. Timely-look_after i.own s e h.0.2 t) _ k2 in
      let k4 =
        Keeps-on_session e n pb true _
          (λ s t. Timely-look_after (record i.peer { status = _ }) s e h.1.2 t) _ k3 in
      let k5 = BothTimely-own_stage e n pb _ i.telemetry _ h.2 k4 in
      let k6 = BothTimely-relay_telemetry_stage e n pb _ i.relay_telemetry _ h.3 k5 in
      let k7 = BothTimely-relay_ack_stage e n pb _ i.relay_ack _ h.4 k6 in
      BothTimely-relay_status_stage e n pb _ i.relay_status _ h.5 k7

  BothTimely-start_both :
      (i : LoopInput) (w : World n pb)
      → PassedBy e i
      → BothTimely e w.sessions
      → BothTimely e (start_both n pb i w).1.sessions
  unfolding start_both others_publish
  BothTimely-start_both i w h b =
      let k1 =
        Keeps-on_session e n pb false (start i.own) (λ s t. Timely-start i.own s e h.0.0 t) w b in
      Keeps-on_session e n pb true (start i.peer) (λ s t. Timely-start i.peer s e h.1.0 t) _ k1

  BothTimely-main_pass :
      (i : LoopInput) (w : World n pb)
      → PassedBy e i
      → BothTimely e w.sessions
      → BothTimely e (main_pass n pb i w).1.sessions
  unfolding main_pass
  BothTimely-main_pass i w h b =
      let started = BothTimely-start_both i w h b in
      if_both SoundWorld i.polls (BothTimely-after_poll i _ _ _ h started) started

  BothTimely-main_run :
      (is : List LoopInput) (w : World n pb)
      → AllPassedBy e is
      → BothTimely e w.sessions
      → BothTimely e (main_run n pb is w).1.sessions
  unfolding main_run
  BothTimely-main_run [] w h b = b
  BothTimely-main_run (i ∷ is) w h b =
      BothTimely-main_run is (main_pass n pb i w).1 h.1 (BothTimely-main_pass i w h.0 b)

  -- The sessions that `next_deadline_ms` looks at, with what the library says of their keepalives.
  abbrev pub watched : Sessions → Option ℕ → Option ℕ → List Watched
  watched ss own_left peer_left =
      record { session = ss.own; keepalive_left = own_left }
      ∷ record { session = ss.peer; keepalive_left = peer_left }
      ∷ []

  BothTimely-booted : BothTimely e sessions_at_boot
  BothTimely-booted = (
    (omega arith, omega arith, omega arith, omega arith),
    (omega arith, omega arith, omega arith, omega arith),
  )

  -- Over any passes of the loop from the start, with both sessions, the broker's messages, the other
  -- threads' channels, errors of the poll and whatever the network does, in which no attempt to
  -- connect and no drop is noted at an uptime after `e`: both sessions' backoffs are within their
  -- bounds, and neither's next attempt nor its wait for a CONNACK is further ahead of `e` than the
  -- longest backoff and the timeout. So in the pass that follows, if no attempt or drop is noted at an
  -- uptime after `e` in it either, if `e` is at most 2^30 ms after the uptime at which it computes its
  -- deadline, and if the times left to the keepalives fit an int: the time that it gives to
  -- `zsock_poll` fits an int, is no longer than to any session's deadline, and is some session's
  -- deadline unless none has one.
  pub main_run_lem :
      (is : List LoopInput) (i : LoopInput) (channels : Channels) (d : Dedupe) (b : n.Bus) (now : ℕ)
      (own_left peer_left : Option ℕ)
      → AllPassedBy e is
      → PassedBy e i
      → e ≤ now + 2 ^ 30
      → FitsInt own_left
      → FitsInt peer_left
      → let w = (main_run n pb is (booted n pb channels d b)).1 in
        let ws = watched (start_both n pb i w).1.sessions own_left peer_left in
        let o = next_deadline_ms now ws in
        BothTimely e w.sessions × CoversAll o now ws × ((o ≡ none) ⊎ Meets o now ws) × FitsInt o
  main_run_lem is i channels d b now own_left peer_left hs h near own_fits peer_fits =
      let kept = BothTimely-main_run is (booted n pb channels d b) hs BothTimely-booted in
      let started = BothTimely-start_both i _ h kept in
      let deadline =
        next_deadline_ms_lem e now (watched _ own_left peer_left) near
          ((started.0, own_fits), ((started.1, peer_fits), tt)) in
      (kept, deadline.0, deadline.1, deadline.2)
