-- ===== src/Relay/Routing.antt =====
-- What reaches the upward channels of the gateway, and what a host then reads.
use climate_node.Common.{
  ℕ, ◌≤◌, ◌<◌, ◌^◌, ◌≡◌, ◌≢◌, ◌⊎◌, ◌↔◌, refl, Bool, true, false, List, [], ◌∷◌, none, some, arith,
  length, if◌then◌else◌,
}
use climate_node.CanLink.{relay_msg_telemetry, relay_msg_ack, heartbeat_unpack}
use climate_node.AppChannels.{SensorReading}
use climate_node.Commands.{failed}
use climate_node.Protocol.{Nanopb, IsNanopb, IsText, encode_telemetry, encode_ack}
use climate_node.Protocol.Telemetry.{
  ReadingFits, visible, host_reading, encode_telemetry-host_reading,
}
use climate_node.Protocol.Acks.{host_ack, encode_ack-host_decode_ack}
use climate_node.Relay.{
  RelayUp, relay_up_max, peer_node_id, publish, give_ack_received, chan_relay_telemetry,
  chan_relay_ack, publish_up, handle_relayed, send_synthetic_ack, CanFrame, drain_heartbeats,
  drain_from, is_valid,
}

abbrev pub relayed : List ℕ → RelayUp
relayed bytes = record { node_id = peer_node_id; len = length bytes; bytes = bytes }

publish_up-fits :
    (bytes : List ℕ)
    → length bytes ≤ relay_up_max
    → (publish_up chan_relay_telemetry bytes ≡ publish chan_relay_telemetry (relayed bytes) ∷ [])
      × (publish_up chan_relay_ack bytes ≡ publish chan_relay_ack (relayed bytes) ∷ [])
unfolding publish_up
publish_up-fits bytes h = ground arith

-- A telemetry payload that fits is published whole on its channel, and nothing else happens. An Ack
-- that fits is published whole on its own channel, and only then is the TX thread released. What has
-- any other type, or is empty, has no effect at all.
pub handle_relayed_lem :
    (type : ℕ) (payload : List ℕ)
    → length payload ≤ relay_up_max
    → (handle_relayed (relay_msg_telemetry ∷ payload)
        ≡ publish chan_relay_telemetry (relayed payload) ∷ [])
      × (handle_relayed (relay_msg_ack ∷ payload)
          ≡ publish chan_relay_ack (relayed payload) ∷ give_ack_received ∷ [])
      × (type ≢ relay_msg_telemetry → type ≢ relay_msg_ack → handle_relayed (type ∷ payload) ≡ [])
      × (handle_relayed [] ≡ [])
unfolding handle_relayed
handle_relayed_lem type payload h =
    let fits = publish_up-fits payload h in (fits.0, rw (fits.1), (λ p q. ground arith), refl)

-- A reading that the peer encodes and sends comes out on the telemetry channel as bytes from which a
-- host reads that reading, though the gateway never decodes them.
pub handle_relayed-encode_telemetry :
    (pb : Nanopb)
    → IsNanopb pb
    → pb.telemetry_size ≤ relay_up_max
    → (r : SensorReading) → ReadingFits r
    → (up : RelayUp) × (handle_relayed
          (relay_msg_telemetry ∷ encode_telemetry pb r pb.telemetry_size)
        ≡ publish chan_relay_telemetry up ∷ [])
      × (host_reading pb up.bytes ≡ some (visible r))
handle_relayed-encode_telemetry pb law fits r h =
    let bytes = encode_telemetry pb r pb.telemetry_size in
    let sent = encode_telemetry-host_reading pb law r h in
    let small : length bytes ≤ relay_up_max = omega (arith, sent.1) in
    (relayed bytes, (handle_relayed_lem 0 bytes small).0, sent.2)

-- A command that the peer does not answer is answered by the gateway: exactly one Ack is published,
-- from which a host reads the command's sequence, FAILED, and the reason cut to the field's size.
pub send_synthetic_ack_lem :
    (pb : Nanopb)
    → IsNanopb pb
    → pb.ack_size ≤ relay_up_max
    → (sequence : ℕ) (detail : List ℕ) → sequence < 2 ^ 32
    → IsText detail
    → (up : RelayUp) × (send_synthetic_ack pb sequence detail ≡ publish chan_relay_ack up ∷ [])
      × (pb.host_decode_ack up.bytes ≡ some (host_ack sequence failed detail none))
unfolding send_synthetic_ack
send_synthetic_ack_lem pb law fits sequence detail hs ht =
    let buf = encode_ack pb sequence failed (some detail) none pb.ack_size in
    let sent = encode_ack-host_decode_ack pb law sequence failed detail none hs ht (omega arith) in
    let small : length buf ≤ relay_up_max = omega (arith, sent.1) in
    (relayed buf, ground (arith, sent.0, publish_up-fits buf small), sent.2)

-- Whether one of the frames is a valid heartbeat.
abbrev pub AnyValid : List CanFrame → Type 0
AnyValid [] = ⊥
AnyValid (f ∷ fs) = (heartbeat_unpack f.frame_data f.byte_count ≢ none) ⊎ AnyValid fs

is_valid_iff :
    (f : CanFrame) → (is_valid f ≡ true) ↔ (heartbeat_unpack f.frame_data f.byte_count ≢ none)
is_valid_iff f = ground arith

drain_from_iff :
    (seen : Bool) (queue : List CanFrame)
    → (drain_from seen queue ≡ true) ↔ ((seen ≡ true) ⊎ AnyValid queue)
unfolding drain_from
drain_from_iff seen [] = ground arith
drain_from_iff seen (f ∷ fs) =
    let step = if is_valid f then true else seen in
    ground (arith, drain_from_iff step fs, is_valid_iff f)

-- A drained queue counts as a sign of life exactly if one of its frames is a valid heartbeat.
pub drain_heartbeats_iff :
    (queue : List CanFrame) → (drain_heartbeats queue ≡ true) ↔ AnyValid queue
unfolding drain_heartbeats
drain_heartbeats_iff queue = ground (arith, drain_from_iff false queue)
