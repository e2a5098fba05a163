-- ===== src/EndToEnd/Telemetry.antt =====
-- A reading on its way from a sensor to a host, through peer-node/src, gateway/src and
-- shared/protocol.cpp.
use climate_node.Common.{
  ℕ, ◌≤◌, ◌<◌, ◌^◌, ◌≡◌, refl, ap, ◌∙◌, Bool, true, false, List, [], ◌∷◌, some, arith, length,
}
use climate_node.CanLink.{relay_msg_telemetry}
use climate_node.Commands.{Node}
use climate_node.Protocol.{Nanopb, IsNanopb, encode_telemetry}
use climate_node.Protocol.Telemetry.{host_reading, encode_telemetry-host_reading}
use climate_node.Sensor.Scd40.{Conversion, Scd40Sample, read_scd40}
use climate_node.Sensor.Bme280.{Bme280Sample, read_bme280}
use climate_node.Sensor.Cycle.{fresh_reading, IsConversion, scd40_fits, bme280_fits}
use climate_node.Peer.Loop.{PassInput, PeerState, may_send, forward_reading, forward_reading_lem}
use climate_node.Relay.{RelayUp, relay_up_max, publish, chan_relay_telemetry, handle_relayed}
use climate_node.Relay.Routing.{relayed, handle_relayed_lem}
use climate_node.Gateway.{peer_topic_telemetry, at_most_once, serving}
use climate_node.Gateway.Outgoing.Stages.{message}
use climate_node.Gateway.Channels.{chan_pubs}
use climate_node.Gateway.Loop.{
  arrive, others_publish, StageInput, World, own_stage, relay_telemetry_stage,
}
use climate_node.EndToEnd.{with_reading, with_relayed_telemetry}
use climate_node.Gateway.Loop.Delivery.{PublishesFirst, relay_telemetry_stage_lem, own_stage_lem}

module _ (pb : Nanopb) (law : IsNanopb pb) (c : Conversion) (conv : IsConversion c) (n : Node) where
  -- What the peer's sensor thread reads, whatever its sensor answers, and the peer may send, goes out
  -- as one ISO-TP payload; the gateway's receiving thread publishes it on its telemetry channel; and
  -- when the main loop looks at that channel next, the peer's session serving, it publishes on the
  -- peer's telemetry topic a message from which a host reads that reading, field by field.
  pub peer_reading_reaches_host :
      pb.telemetry_size ≤ pb.ack_size
      → pb.telemetry_size ≤ relay_up_max
      → (device_ok : Bool) (x : Bme280Sample) (sequence uptime : ℕ) (i : PassInput)
        (p : PeerState n pb) (si : StageInput) (w : World n pb)
      → sequence < 2 ^ 32
      → may_send n pb i p.link ≡ true
      → si.can_read ≡ true
      → w.channels.relay_telemetry.has_fd ≡ true
      → w.sessions.peer.state ≡ serving
      → let r = read_bme280 c device_ok x (fresh_reading sequence uptime) in
        (frame : List ℕ) × ((forward_reading n pb i r p).0 ≡ frame ∷ [])
        × (up : RelayUp) × (handle_relayed frame ≡ publish chan_relay_telemetry up ∷ [])
        × PublishesFirst true
            (message peer_topic_telemetry up.bytes at_most_once 0 false)
            (relay_telemetry_stage n pb true si (with_relayed_telemetry n pb up w)).0
        × (host_reading pb up.bytes ≡ some r)
  unfolding others_publish arrive chan_pubs
  peer_reading_reaches_host small fits device_ok x sequence uptime i p si w hs may readable fd
        serves =
      let r = read_bme280 c device_ok x (fresh_reading sequence uptime) in
      let bytes = encode_telemetry pb r pb.telemetry_size in
      let sound = bme280_fits c conv device_ok x sequence uptime hs in
      let sent = encode_telemetry-host_reading pb law r sound.0 in
      let forwarded = forward_reading_lem n pb law small i r p sound.0 in
      let short : length bytes ≤ relay_up_max = omega (arith, sent.1) in
      let up = relayed bytes in
      (
        relay_msg_telemetry ∷ bytes,
        ground (arith, forwarded, may),
        up,
        (handle_relayed_lem 0 bytes short).0,
        (relay_telemetry_stage_lem n pb si (with_relayed_telemetry n pb up w) readable
            w.channels.relay_telemetry up fd serves refl).0,
        sent.2 ∙ ap some sound.1,
      )

  -- What the gateway's own sensor thread reads is published on the node's own topic when the main
  -- loop looks at the channel next, the own session serving, in a message from which a host reads
  -- that reading, field by field.
  pub own_reading_reaches_host :
      (device_ok : Bool) (x : Scd40Sample) (sequence uptime : ℕ) (si : StageInput) (w : World n pb)
      → sequence < 2 ^ 32
      → si.can_read ≡ true
      → w.channels.telemetry.has_fd ≡ true
      → w.sessions.own.state ≡ serving
      → let r = read_scd40 c device_ok x (fresh_reading sequence uptime) in
        (bytes : List ℕ) × PublishesFirst false
          (message w.sessions.own.config.topic_telemetry bytes at_most_once 0 false)
          (own_stage n pb true si (with_reading n pb r w)).0
        × (host_reading pb bytes ≡ some r)
  unfolding others_publish arrive chan_pubs
  own_reading_reaches_host device_ok x sequence uptime si w hs readable fd serves =
      let r = read_scd40 c device_ok x (fresh_reading sequence uptime) in
      let sound = scd40_fits c conv device_ok x sequence uptime hs in
      let sent = encode_telemetry-host_reading pb law r sound.0 in
      let out =
        own_stage_lem n pb si (with_reading n pb r w) readable w.channels.telemetry r fd serves
          sent.0 refl in
      (encode_telemetry pb r pb.telemetry_size, out.0, sent.2 ∙ ap some sound.1)
