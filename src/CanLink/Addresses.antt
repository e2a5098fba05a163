-- ===== src/CanLink/Addresses.antt =====
-- The identifiers of shared/can_link.h as one map, and what keeps the contexts of a bus apart.
use climate_node.Common.{ℕ, ◌≤◌, ◌<◌, ◌^◌, ◌≡◌, ◌≢◌, arith}
use climate_node.CanLink.{
  first_peer_node_id, max_peer_node_id, heartbeat_id, isotp_id_to_peer, isotp_id_to_gateway,
  isotp_fc_id_to_gateway, isotp_fc_id_to_peer,
}

-- What an identifier is for.
pub data Traffic : Type 0 where
  beat to_peer fc_to_gateway to_gateway fc_to_peer : Traffic

abbrev pub can_id : Traffic → ℕ → ℕ
can_id beat node_id = heartbeat_id node_id
can_id to_peer node_id = isotp_id_to_peer node_id
can_id fc_to_gateway node_id = isotp_fc_id_to_gateway node_id
can_id to_gateway node_id = isotp_id_to_gateway node_id
can_id fc_to_peer node_id = isotp_fc_id_to_peer node_id

abbrev pub IsPeer : ℕ → Type 0
IsPeer node_id = (first_peer_node_id ≤ node_id) × (node_id ≤ max_peer_node_id)

-- Among the peers that the map can express, an identifier tells what the frame is for and which
-- peer it belongs to: no two of the five ranges overlap, for the same or for different peers.
pub can_id_injective :
    (k l : Traffic) (m n : ℕ) → IsPeer m → IsPeer n → can_id k m ≡ can_id l n → (k ≡ l) × (m ≡ n)
unfolding heartbeat_id isotp_id_to_peer isotp_id_to_gateway isotp_fc_id_to_gateway
    isotp_fc_id_to_peer
can_id_injective k l m n p q e = ground arith

-- Every identifier of a peer is a standard CAN identifier (below 2 ^ 11), and every heartbeat has a
-- smaller identifier, so a higher priority, than any ISO-TP frame of any peer.
pub can_id-beat_first :
    (k : Traffic) (m n : ℕ)
    → IsPeer m
    → IsPeer n
    → k ≢ beat
    → (can_id beat m < can_id k n) × (can_id k n < 2 ^ 11)
unfolding heartbeat_id isotp_id_to_peer isotp_id_to_gateway isotp_fc_id_to_gateway
    isotp_fc_id_to_peer
can_id-beat_first k m n p q h = ground arith
