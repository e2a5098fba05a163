-- ===== src/CanLink/Tests.antt =====
-- Frames and identifiers at concrete values.
use climate_node.Common.{ℕ, ◌+◌, ◌≡◌, refl, some, [], ◌∷◌, arith}
use climate_node.CanLink.{
  first_peer_node_id, max_peer_node_id, isotp_id_to_peer, isotp_id_to_gateway,
  isotp_fc_id_to_gateway, isotp_fc_id_to_peer, Heartbeat, running, heartbeat_pack, heartbeat_unpack,
}
use climate_node.CanLink.Addresses.{
  to_peer, fc_to_gateway, to_gateway, fc_to_peer, can_id, can_id_injective,
}
use climate_node.CanLink.Frame.{heartbeat_unpack-heartbeat_pack}

can_id_injective_example : (to_gateway ≡ to_gateway) × (◌≡◌ {A = ℕ} 5 5)
can_id_injective_example =
    can_id_injective to_gateway to_gateway 5 5 (omega arith) (omega arith) refl

-- The bound on the peers is tight: the next one would be given the flow-control identifiers of the
-- first, towards the peer and towards the gateway alike.
next_peer_collides :
    (can_id to_peer (max_peer_node_id + 1) ≡ can_id fc_to_gateway first_peer_node_id)
    × (can_id to_gateway (max_peer_node_id + 1) ≡ can_id fc_to_peer first_peer_node_id)
unfolding isotp_id_to_peer isotp_id_to_gateway isotp_fc_id_to_gateway isotp_fc_id_to_peer
next_peer_collides = (refl, refl)

abbrev two_days : Heartbeat
two_days = record { state = running; uptime_s = 172_801; sequence_low = 200 }

packed_bytes : heartbeat_pack two_days ≡ 1 ∷ 2 ∷ 1 ∷ 163 ∷ 2 ∷ 0 ∷ 200 ∷ 255 ∷ []
unfolding heartbeat_pack
packed_bytes = refl

heartbeat_unpack-heartbeat_pack_example :
    heartbeat_unpack (heartbeat_pack two_days) 8 ≡ some two_days
heartbeat_unpack-heartbeat_pack_example = heartbeat_unpack-heartbeat_pack two_days (omega arith)
