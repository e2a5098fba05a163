-- ===== src/Peer/SetUp.antt =====
-- The start of `main` in peer-node/src/main.cpp, before its loop, beside the gateway's.
use climate_node.Common.{
  ℕ, ◌≡◌, ◌↔◌, Bool, true, false, not, ◌||◌, List, [], ◌∷◌, if◌then◌else◌, arith,
}
use climate_node.Zephyr.{
  is_success, is_already, FcOpts, SetUpCall, can_start, can_add_rx_filter, isotp_bind, SetUp,
}
use climate_node.CanLink.{
  isotp_id_to_gateway, isotp_id_to_peer, isotp_fc_id_to_gateway, isotp_fc_id_to_peer,
}
use climate_node.Peer.{node_id, BeatInput, BeatState, LinkState, send_heartbeat}
use climate_node.Relay.Threads
use climate_node.Relay.Threads.{rx_set_up, rx_filter, rx_bind}

abbrev pub rx_addr : ℕ
rx_addr = isotp_id_to_peer node_id

abbrev pub rx_fc_addr : ℕ
rx_fc_addr = isotp_fc_id_to_peer node_id

abbrev pub tx_addr : ℕ
tx_addr = isotp_id_to_gateway node_id

abbrev pub tx_fc_addr : ℕ
tx_fc_addr = isotp_fc_id_to_gateway node_id

abbrev pub fc_opts : FcOpts
fc_opts = record { bs = 0; stmin = 0 }

-- The calls made, and whether `main` comes to its loop; it adds no filter of its own.
unfoldable pub peer_set_up : SetUp → List SetUpCall × Bool
peer_set_up i =
    if not i.device_is_ready
    then ([], false)
    else if is_success i.start_rc || is_already i.start_rc
    then (can_start ∷ isotp_bind rx_addr tx_fc_addr fc_opts 200 ∷ [], is_success i.bind_rc)
    else (can_start ∷ [], false)

abbrev pub Started : SetUp → Type 0
Started i = (i.device_is_ready ≡ true) × ((is_success i.start_rc || is_already i.start_rc) ≡ true)

-- A node comes to its loop exactly if its controller is ready and starts, or was started before, and
-- each later call of its set-up succeeds: on the gateway also that of the heartbeat filter.
pub set_up_iff :
    (g p : SetUp)
    → (((rx_set_up g).1 ≡ true)
        ↔ (Started g × (is_success g.filter_rc ≡ true) × (is_success g.bind_rc ≡ true)))
      × (((peer_set_up p).1 ≡ true) ↔ (Started p × (is_success p.bind_rc ≡ true)))
unfolding rx_set_up rx_filter rx_bind peer_set_up
set_up_iff g p = ground arith

-- When both nodes come to their loops, the gateway's filter takes the id that the peer's heartbeats
-- have; each side's ISO-TP receives on the id that the other side sends data on; and its flow control
-- goes out on the id on which the other side's sender waits for it.
pub set_ups_match :
    (g p : SetUp) (i : BeatInput) (b : BeatState) (l : LinkState)
    → (rx_set_up g).1 ≡ true
    → (peer_set_up p).1 ≡ true
    → ((rx_set_up g).0
        ≡ can_start
          ∷ can_add_rx_filter (send_heartbeat i b l).0.id
          ∷ isotp_bind tx_addr rx_fc_addr fc_opts 200
          ∷ [])
      × ((peer_set_up p).0
          ≡ can_start ∷ isotp_bind Threads.tx_addr Threads.rx_fc_addr fc_opts 200 ∷ [])
unfolding rx_set_up rx_filter rx_bind peer_set_up send_heartbeat
set_ups_match g p i b l hg hp = (ground (arith, hg), ground (arith, hp))
