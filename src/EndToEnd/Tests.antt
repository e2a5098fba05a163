-- ===== src/EndToEnd/Tests.antt =====
-- A concrete reading and concrete commands on their ways.
use climate_node.Common.{◌≡◌, refl, true, false, List, [], ◌∷◌, ◌++◌, ℕ, some, none, arith}
use climate_node.Common.Decimal.{codes}
use climate_node.Zephyr.{enetunreach}
use climate_node.Commands.{Command, failed}
use climate_node.Commands.Sample.{node_two}
use climate_node.Protocol.Acks.{host_ack}
use climate_node.Protocol.Plain.{plain, plain-IsNanopb}
use climate_node.Protocol.Telemetry.{host_reading}
use climate_node.Sensor.Scd40.{read_scd40}
use climate_node.Sensor.Bme280.{read_bme280}
use climate_node.Sensor.Cycle.{fresh_reading}
use climate_node.Sensor.Sample.{integer_part, integer_part-IsConversion, warm, outside}
use climate_node.Peer.{send_heartbeat, beats_end, note_link}
use climate_node.Peer.Loop.{forward_reading, pass, beat_pass, wait_pass, receive, take_reading}
use climate_node.Peer.Sample.{waiting, quiet}
use climate_node.Relay.{
  RelayStatus, RelayUp, publish, chan_relay_telemetry, chan_relay_ack, handle_relayed,
}
use climate_node.Relay.Threads.{
  tx_addr, rx_fc_addr, reset_ack_received, isotp_send, effect, command_frame, tx_command, RxInput,
  rx_run, rx_at_loop,
}
use climate_node.Gateway.{
  peer_topic_telemetry, peer_topic_command, at_most_once, at_least_once, peer_topic_status, next_id,
}
use climate_node.Gateway.Incoming.{PublishEvt}
use climate_node.Gateway.Outgoing.Stages.{message}
use climate_node.Gateway.Loop.{own_stage, relay_telemetry_stage, relay_status_stage}
use climate_node.Gateway.Loop.Delivery.{PublishesFirst}
use climate_node.Gateway.Loop.Sample.{quiet_stage, serving_world}
use climate_node.EndToEnd.{with_reading, with_relayed_telemetry, with_statuses}
use climate_node.Relay.Threads.Receiving.{statuses}
use climate_node.Peer.Loop.Cadence.{run}
use climate_node.EndToEnd.Pace.{Trip, fed}
use climate_node.EndToEnd.Pace.Runs.{arrivals, Punctual, peer_stays_online}
use climate_node.Relay.Liveness.{Look, last_evidence, heard, last_look}
use climate_node.EndToEnd.Status.{status_messages, verdict_reaches_host}
use climate_node.EndToEnd.Telemetry.{peer_reading_reaches_host, own_reading_reaches_host}
use climate_node.EndToEnd.Command.{handed, AckOut, command_answered_for_peer}

peer_reading_reaches_host_example :
    let r = read_bme280 integer_part true outside (fresh_reading 6 5000) in
    (frame : List ℕ) × ((forward_reading node_two plain (quiet 800) r waiting).0 ≡ frame ∷ [])
    × (up : RelayUp) × (handle_relayed frame ≡ publish chan_relay_telemetry up ∷ [])
    × PublishesFirst true
        (message peer_topic_telemetry up.bytes at_most_once 0 false)
        (relay_telemetry_stage node_two plain true quiet_stage
          (with_relayed_telemetry node_two plain up serving_world)).0
    × (host_reading plain up.bytes ≡ some r)
peer_reading_reaches_host_example =
    peer_reading_reaches_host plain plain-IsNanopb integer_part integer_part-IsConversion node_two
      (omega arith) (omega arith) true outside 6 5000 (quiet 800) waiting quiet_stage serving_world
      (omega arith) refl refl refl refl

own_reading_reaches_host_example :
    let r = read_scd40 integer_part true warm (fresh_reading 6 5000) in
    (bytes : List ℕ) × PublishesFirst false
      (message (codes "node/1/telemetry") bytes at_most_once 0 false)
      (own_stage node_two plain true quiet_stage (with_reading node_two plain r serving_world)).0
    × (host_reading plain bytes ≡ some r)
own_reading_reaches_host_example =
    own_reading_reaches_host plain plain-IsNanopb integer_part integer_part-IsConversion node_two
      true warm 6 5000 quiet_stage serving_world (omega arith) refl refl refl

-- Sequence 7, TriggerMeasurement.
abbrev trigger : Command
trigger = record { schema_version = 1; sequence = 7; which_payload = 11; interval_ms = 0 }

abbrev trigger_bytes : List ℕ
trigger_bytes = 7 ∷ 11 ∷ 0 ∷ []

abbrev arrives : PublishEvt
arrives = record { topic = peer_topic_command; qos = at_least_once; message_id = 21; len = 3 }

command_answered_for_peer_example :
    let down = handed trigger_bytes trigger in
    (up : RelayUp) × (tx_command plain enetunreach false down
      ≡ reset_ack_received
        ∷ isotp_send (command_frame down) tx_addr rx_fc_addr
        ∷ effect (publish chan_relay_ack up)
        ∷ [])
    × AckOut node_two plain plain-IsNanopb quiet_stage serving_world up
    × (plain.host_decode_ack up.bytes
        ≡ some (host_ack 7 failed (codes "no route to node over CAN") none))
command_answered_for_peer_example =
    command_answered_for_peer node_two plain plain-IsNanopb quiet_stage serving_world (omega arith)
      refl refl refl (handed trigger_bytes trigger) enetunreach (omega arith)

-- The second beat is sent 1200 ms late, since a pass was slow, and the third right after it.
abbrev trips : List Trip
trips =
    record { input = quiet 500; arrives = 510 }
    ∷ record { input = quiet 600; arrives = 0 }
    ∷ record { input = quiet 2700; arrives = 2710 }
    ∷ record { input = quiet 2701; arrives = 2712 }
    ∷ []

abbrev look_at : ℕ → RxInput
look_at now = record { received = none; frames = []; now = now }

abbrev looks : List RxInput
looks = look_at 505 ∷ look_at 755 ∷ look_at 2705 ∷ look_at 2955 ∷ look_at 5500 ∷ []

trips-Punctual : Punctual node_two plain 0 trips waiting
unfolding pass beat_pass wait_pass receive take_reading send_heartbeat beats_end note_link
trips-Punctual = (
  (λ _. (refl, omega arith, omega arith)),
  (
    (λ due. absurd (ground (arith, due))),
    ((λ _. (refl, omega arith, omega arith)), ((λ _. (refl, omega arith, omega arith)), tt)),
  ),
)

peer_stays_online_example :
    statuses (rx_run (fed (arrivals node_two plain trips waiting) looks) (rx_at_loop 500 [])).0
    ≡ true ∷ []
unfolding run pass beat_pass wait_pass receive take_reading send_heartbeat beats_end note_link
peer_stays_online_example =
    peer_stays_online node_two plain 0 500 trips waiting looks trips-Punctual (omega arith)
      (omega arith)

-- Nothing comes in the first 4.5 s.
abbrev silence : List RxInput
silence = record { received = none; frames = []; now = 5000 } ∷ []

abbrev silent_looks : List Look
silent_looks = record { seen = false; now = 5000 } ∷ []

abbrev came_online : RelayStatus
came_online = record { node_id = 2; online = true }

verdict_reaches_host_example :
    (earlier : List RelayStatus) × (last : RelayStatus) × (status_messages
        (rx_run silence (rx_at_loop 500 [])).0
      ≡ earlier ++ (last ∷ []))
    × PublishesFirst true
        (message peer_topic_status (codes "offline") at_least_once (next_id 0) true)
        (relay_status_stage node_two plain true quiet_stage
          (with_statuses node_two plain (came_online ∷ (last ∷ [])) serving_world)).0
unfolding last_evidence heard last_look
verdict_reaches_host_example =
    verdict_reaches_host node_two plain 500 [] silence silent_looks quiet_stage serving_world
      (came_online ∷ []) false (refl, ((λ h. ground (arith, h)), (λ h. absurd h)), tt) (omega arith)
      refl refl refl refl
