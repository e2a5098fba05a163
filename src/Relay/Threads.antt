-- ===== src/Relay/Threads.antt =====
-- `rx_thread` and `tx_thread` of gateway/src/relay.cpp, each pass of their loops, with what the CAN
-- driver, ISO-TP, the kernel and the clock answer as an input.
pub mod Receiving
pub mod Sending
use climate_node.Common.{
  ℕ, ◌≤◌, ◌<◌, ◌≡◌, Bool, true, false, not, ◌&&◌, ◌||◌, List, [], ◌∷◌, ◌++◌, map, Option, none,
  some, if◌then◌else◌, length,
}
use climate_node.Common.Decimal.{codes}
use climate_node.Zephyr.{
  Rc, is_success, is_already, FcOpts, SetUpCall, can_start, can_add_rx_filter, isotp_bind, SetUp,
}
use climate_node.CanLink.{
  heartbeat_id, isotp_id_to_gateway, isotp_id_to_peer, isotp_fc_id_to_gateway, isotp_fc_id_to_peer,
  relay_msg_command, heartbeat_timeout_ms,
}
use climate_node.Protocol.{Nanopb}
use climate_node.Relay.{
  RelayDown, PeerLiveness, LivenessState, is_online, liveness_step, peer_node_id, recv_poll_ms,
  ack_wait_ms, Effect, publish_status, handle_relayed, CanFrame, drain_heartbeats, heartbeat_isr,
  send_synthetic_ack,
}
use climate_node.Relay.Liveness.{listening_since}

abbrev pub rx_addr : ℕ
rx_addr = isotp_id_to_gateway peer_node_id

abbrev pub rx_fc_addr : ℕ
rx_fc_addr = isotp_fc_id_to_gateway peer_node_id

abbrev pub tx_addr : ℕ
tx_addr = isotp_id_to_peer peer_node_id

abbrev pub tx_fc_addr : ℕ
tx_fc_addr = isotp_fc_id_to_peer peer_node_id

abbrev pub fc_opts : FcOpts
fc_opts = record { bs = 0; stmin = 0 }

-- The calls made, and whether the thread comes to its loop.
unfoldable pub rx_bind : SetUp → List SetUpCall × Bool
rx_bind i = (isotp_bind rx_addr tx_fc_addr fc_opts 200 ∷ [], is_success i.bind_rc)

unfoldable pub rx_filter : SetUp → List SetUpCall × Bool
rx_filter i =
    let (calls, up) = rx_bind i in
    let filter = can_add_rx_filter (heartbeat_id peer_node_id) in
    if is_success i.filter_rc then (filter ∷ calls, up) else (filter ∷ [], false)

unfoldable pub rx_set_up : SetUp → List SetUpCall × Bool
rx_set_up i =
    let (calls, up) = rx_filter i in
    if not i.device_is_ready
    then ([], false)
    else if is_success i.start_rc || is_already i.start_rc
    then (can_start ∷ calls, up)
    else (can_start ∷ [], false)

-- `heartbeat_q`, and the thread's variable `peer`.
pub record RxState : Type 0 where
  pub heartbeat_q : List CanFrame
  pub peer : LivenessState

-- Of a pass: what `isotp_recv` returns, none for a timeout or an error; the frames that the driver
-- has called back with since the last drain; and the uptime at the liveness step.
pub record RxInput : Type 0 where
  pub received : Option (List ℕ)
  pub frames : List CanFrame
  pub now : ℕ

abbrev pub relay_received : Option (List ℕ) → List Effect
relay_received none = []
relay_received (some []) = []
relay_received (some buf) = handle_relayed buf

unfoldable pub queue_all : List CanFrame → List CanFrame → List CanFrame
queue_all q [] = q
queue_all q (f ∷ fs) = queue_all (heartbeat_isr q f) fs

unfoldable pub rx_pass : RxInput → RxState → List Effect × RxState
rx_pass i s =
    let seen = drain_heartbeats (queue_all s.heartbeat_q i.frames) in
    let (peer, changed) = liveness_step s.peer seen i.now heartbeat_timeout_ms in
    let news = if changed then publish_status (is_online peer.state) else [] in
    (relay_received i.received ++ news, record { heartbeat_q = []; peer = peer })

unfoldable pub rx_run : List RxInput → RxState → List Effect × RxState
rx_run [] s = ([], s)
rx_run (i ∷ is) s =
    let (effects, s') = rx_pass i s in let (more, s'') = rx_run is s' in (effects ++ more, s'')

-- Frames queued before the loop are still there.
abbrev pub rx_at_loop : ℕ → List CanFrame → RxState
rx_at_loop start frames = record { heartbeat_q = queue_all [] frames; peer = listening_since start }

-- What the TX thread does, in order.
pub data TxAct : Type 0 where
  reset_ack_received : TxAct
  isotp_send : List ℕ → ℕ → ℕ → TxAct
  take_ack_received : ℕ → TxAct
  effect : Effect → TxAct

-- What wakes it.
pub data Woken : Type 0 where
  wait_failed other_channel : Woken
  down : RelayDown → Woken

-- Of a pass: what `isotp_send` returns, and whether the semaphore is given in time.
pub record TxInput : Type 0 where
  pub woken : Woken
  pub send_rc : Rc
  pub given : Bool

abbrev pub command_frame : RelayDown → List ℕ
command_frame cmd = relay_msg_command ∷ cmd.bytes

unfoldable pub await_ack : Nanopb → Bool → RelayDown → List TxAct
await_ack pb given cmd =
    take_ack_received ack_wait_ms
    ∷ (if given
        then []
        else map effect (send_synthetic_ack pb cmd.sequence (codes "no response over CAN")))

unfoldable pub tx_command : Nanopb → Rc → Bool → RelayDown → List TxAct
tx_command pb send_rc given cmd =
    reset_ack_received
    ∷ isotp_send (command_frame cmd) tx_addr rx_fc_addr
    ∷ (if is_success send_rc
        then await_ack pb given cmd
        else map effect (send_synthetic_ack pb cmd.sequence (codes "no route to node over CAN")))

unfoldable pub tx_woken : Nanopb → Rc → Bool → Woken → List TxAct
tx_woken pb send_rc given wait_failed = []
tx_woken pb send_rc given other_channel = []
tx_woken pb send_rc given (down cmd) = tx_command pb send_rc given cmd

unfoldable pub tx_pass : Nanopb → TxInput → List TxAct
tx_pass pb i = tx_woken pb i.send_rc i.given i.woken
