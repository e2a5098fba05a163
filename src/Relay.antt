-- ===== src/Relay.antt =====
-- gateway/src/relay.h and gateway/src/relay.cpp: the gateway's CAN side.
pub mod Liveness
pub mod Routing
pub mod RoundTrip
pub mod Threads
mod Tests
use climate_node.Common.{
  ℕ, zero, suc, ◌+◌, ◌-◌, ◌%◌, ◌^◌, ◌≤◌, Bool, true, false, not, ◌&&◌, List, [], ◌∷◌, ◌++◌, Option,
  some, none, leb, ltb, ◌==◌, if◌then◌else◌, length, arith,
}
use climate_node.CanLink.{
  first_peer_node_id, relay_msg_telemetry, relay_msg_ack, heartbeat_unpack, Heartbeat,
}
use climate_node.Commands.{failed}
use climate_node.Protocol.{Nanopb, encode_ack}

abbrev pub relay_up_max : ℕ
relay_up_max = 160

-- `bytes` holds the `len` bytes that matter of the array.
pub record RelayUp : Type 0 where
  pub node_id : ℕ  -- uint8_t
  pub len : ℕ  -- uint16_t
  pub bytes : List ℕ

pub record RelayDown : Type 0 where
  pub node_id : ℕ  -- uint8_t
  pub len : ℕ  -- uint8_t
  pub sequence : ℕ  -- uint32_t
  pub bytes : List ℕ

pub record RelayStatus : Type 0 where
  pub node_id : ℕ  -- uint8_t
  pub online : Bool

abbrev pub relay_down_max : ℕ
relay_down_max = 24

pub data PeerLiveness : Type 0 where
  peer_unknown peer_online peer_offline : PeerLiveness

pub record LivenessState : Type 0 where
  pub state : PeerLiveness
  pub last_seen_ms : ℕ  -- int64_t, an uptime

abbrev pub is_online : PeerLiveness → Bool
is_online peer_online = true
is_online _ = false

abbrev pub is_offline : PeerLiveness → Bool
is_offline peer_offline = true
is_offline _ = false

-- The new state, and whether it changed. `now - last >= timeout` over int64_t is
-- `last + timeout <= now`, which needs no negative number.
unfoldable pub liveness_step : LivenessState → Bool → ℕ → ℕ → LivenessState × Bool
liveness_step l frame_seen now_ms timeout_ms =
    if frame_seen
    then (record { state = peer_online; last_seen_ms = now_ms }, not (is_online l.state))
    else if leb (l.last_seen_ms + timeout_ms) now_ms && not (is_offline l.state)
    then (record l { state = peer_offline }, true)
    else (l, false)

abbrev pub peer_node_id : ℕ
peer_node_id = first_peer_node_id

abbrev pub recv_poll_ms : ℕ
recv_poll_ms = 250

abbrev pub ack_wait_ms : ℕ
ack_wait_ms = 2000

pub data UpChannel : Type 0 where
  chan_relay_telemetry chan_relay_ack : UpChannel

-- What the relay's threads do to the other threads, in order.
pub data Effect : Type 0 where
  publish : UpChannel → RelayUp → Effect
  publish_status_of : RelayStatus → Effect  -- on `chan_relay_status`
  give_ack_received : Effect

-- A publish that fails is only logged, and so is a payload that is too long.
unfoldable pub publish_up : UpChannel → List ℕ → List Effect
publish_up chan bytes =
    if ltb relay_up_max (length bytes)
    then []
    else publish chan
        (record { node_id = peer_node_id; len = length bytes % 2 ^ 16; bytes = bytes })
      ∷ []

unfoldable pub publish_status : Bool → List Effect
publish_status online = publish_status_of (record { node_id = peer_node_id; online = online }) ∷ []

unfoldable pub handle_relayed : List ℕ → List Effect
handle_relayed [] = []
handle_relayed (type ∷ payload) =
    if type == relay_msg_telemetry
    then publish_up chan_relay_telemetry payload
    else if type == relay_msg_ack
    then publish_up chan_relay_ack payload ++ (give_ack_received ∷ [])
    else []

-- A CAN frame as the driver queues it: its data, and the bytes that its length code stands for.
pub record CanFrame : Type 0 where
  pub frame_data : List ℕ
  pub byte_count : ℕ

-- The loop over the queue runs until it is empty.
abbrev pub is_valid : CanFrame → Bool
is_valid f = elim (heartbeat_unpack f.frame_data f.byte_count) [ none ↦ false | _ ↦ true ]

pub drain_from : Bool → List CanFrame → Bool
drain_from seen [] = seen
drain_from seen (f ∷ fs) = drain_from (if is_valid f then true else seen) fs

unfoldable pub drain_heartbeats : List CanFrame → Bool
unfolding drain_from
drain_heartbeats queue = drain_from false queue

-- The driver's callback: a full queue, of four frames, drops the new one.
unfoldable pub heartbeat_isr : List CanFrame → CanFrame → List CanFrame
heartbeat_isr queue frame = if ltb (length queue) 4 then queue ++ (frame ∷ []) else queue

unfoldable pub send_synthetic_ack : Nanopb → ℕ → List ℕ → List Effect
send_synthetic_ack pb sequence detail =
    let buf = encode_ack pb sequence failed (some detail) none pb.ack_size in
    if ltb 0 (length buf) then publish_up chan_relay_ack buf else []
