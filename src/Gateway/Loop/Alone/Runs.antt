-- ===== src/Gateway/Loop/Alone/Runs.antt =====
-- The loop over both sessions of gateway/src/main.cpp, beside the loop of each session alone.
use climate_node.Common.{List, [], ◌∷◌, map, if_along}
use climate_node.Commands.{Node}
use climate_node.Protocol.{Nanopb}
use climate_node.Gateway.Incoming.{Act}
use climate_node.Gateway.Loop.{LoopInput, World, start_both, main_pass, main_run}
use climate_node.Gateway.Loop.Alone.{
  own_input, OwnSide, own_start, own_pass, own_run, peer_input, PeerSide, peer_start, peer_pass,
  peer_run,
}
use climate_node.Gateway.Loop.Alone.Sides.{
  OwnSees, PeerSees, own-start_both, peer-start_both, own-after_poll, peer-after_poll,
}

module _ (n : Node) (pb : Nanopb) where
  pub own-main_pass :
      (i : LoopInput) (w : World n pb) (x : OwnSide)
      → OwnSees n pb w x
      → OwnSees n pb (main_pass n pb i w).1 (own_pass pb (own_input i) x)
  unfolding main_pass own_pass
  own-main_pass i w x sees =
      let started = own-start_both n pb i w x sees in
      if_along (λ (r : List Act × World n pb) (z : OwnSide). OwnSees n pb r.1 z) i.polls
        (own-after_poll n pb i (start_both n pb i w).1 (own_start (own_input i) x) started) started

  pub peer-main_pass :
      (i : LoopInput) (w : World n pb) (y : PeerSide)
      → PeerSees n pb w y
      → PeerSees n pb (main_pass n pb i w).1 (peer_pass (peer_input i) y)
  unfolding main_pass peer_pass
  peer-main_pass i w y sees =
      let started = peer-start_both n pb i w y sees in
      if_along (λ (r : List Act × World n pb) (z : PeerSide). PeerSees n pb r.1 z) i.polls
        (peer-after_poll n pb i (start_both n pb i w).1 (peer_start (peer_input i) y) started)
        started

  -- Neither session's life depends on the other's. After any passes, whatever both brokers, the
  -- network and the other threads do: the session of this node, except its counter of message
  -- identifiers, and its channel are what the loop over that session alone makes of them from its own
  -- socket, readings and results; and the peer's session, except its counter, and its three channels
  -- are what the loop over that session alone makes of them from what concerns the peer. Not stated
  -- are what goes out, the counters, the last command and the bus: these the sessions share, since a
  -- command that comes on either is looked up and carried out on the same state, and answered on the
  -- session of its topic.
  pub main_run-sides :
      (is : List LoopInput) (w : World n pb) (x : OwnSide) (y : PeerSide)
      → OwnSees n pb w x
      → PeerSees n pb w y
      → let w' = (main_run n pb is w).1 in
        OwnSees n pb w' (own_run pb (map own_input is) x)
        × PeerSees n pb w' (peer_run (map peer_input is) y)
  unfolding main_run own_run peer_run
  main_run-sides [] w x y own peer = (own, peer)
  main_run-sides (i ∷ is) w x y own peer =
      main_run-sides is (main_pass n pb i w).1 (own_pass pb (own_input i) x)
        (peer_pass (peer_input i) y) (own-main_pass i w x own) (peer-main_pass i w y peer)
