-- ===== src/Peer/Tests.antt =====
-- The peer at concrete link failures, commands and passes.
use climate_node.Common.{
  ℕ, ◌+◌, ◌*◌, ◌≤◌, ◌<◌, ◌≡◌, ◌↔◌, refl, true, false, none, some, List, [], ◌∷◌, arith,
}
use climate_node.Common.Decimal.{codes}
use climate_node.Zephyr.{success}
use climate_node.AppChannels.{SensorCmd, SensorReading, empty_reading, trigger, reading_error}
use climate_node.CanLink.{heartbeat_id, heartbeat_unpack}
use climate_node.Commands.{Command, malformed, no_command_yet}
use climate_node.Commands.Sample.{node_two}
use climate_node.Protocol.Plain.{plain, plain-IsNanopb}
use climate_node.Peer.{
  link_at_boot, next_backoff, note_link, beats_at_boot, BeatState, beats_end, send_heartbeat,
  node_id, handle_incoming,
}
use climate_node.Peer.Link.{note_failures, send_heartbeat_lem}
use climate_node.Peer.Answer.{Answers, handle_incoming-refused}
use climate_node.Peer.Loop.{PassInput, pass, beat_pass, wait_pass, receive, take_reading}
use climate_node.Peer.Sample.{waiting, quiet, prompt_beat}
use climate_node.Peer.Loop.Cadence.{run, beats, beats-run}

fifth_failure :
    (note_failures (0 ∷ 1000 ∷ 2000 ∷ 3000 ∷ 4000 ∷ []) link_at_boot).tx_retry_at ≡ 34000
unfolding note_failures note_link next_backoff
fifth_failure = refl

-- The beat before this one is still outstanding.
abbrev one_outstanding : BeatState
one_outstanding = record beats_at_boot { beats_queued = 3; beats_completed = 2 }

outstanding_takes_link_down :
    (send_heartbeat (prompt_beat 5000) one_outstanding link_at_boot).2.link_up ≡ false
unfolding send_heartbeat note_link beats_end
outstanding_takes_link_down = refl

send_heartbeat_lem_example :
    let (frame, b', l') = send_heartbeat (prompt_beat 5000) one_outstanding link_at_boot in
    ((l'.link_up ≡ true) ↔ ((success ≡ success) × (success ≡ success) × (3 ≤ 2 + 0 + 0)))
    × (frame.id ≡ heartbeat_id node_id)
    × (heartbeat_unpack frame.frame_data frame.dlc
        ≡ some (record one_outstanding.hb_state { uptime_s = 5 }))
send_heartbeat_lem_example = send_heartbeat_lem (prompt_beat 5000) one_outstanding link_at_boot

-- Sequence 7, TriggerMeasurement.
abbrev trigger_bytes : List ℕ
trigger_bytes = 7 ∷ 11 ∷ 0 ∷ []

abbrev trigger_command : Command
trigger_command = record { schema_version = 1; sequence = 7; which_payload = 11; interval_ms = 0 }

abbrev triggered : SensorCmd
triggered = record { kind = trigger; interval_ms = 0 }

handle_incoming-refused_example :
    Answers plain
      (handle_incoming node_two plain (3 ∷ 1 ∷ []) success no_command_yet []).0
      0
      malformed
      (codes "decode failed")
      none
handle_incoming-refused_example =
    (handle_incoming-refused node_two plain plain-IsNanopb 1 (1 ∷ []) success no_command_yet [] refl
      (omega arith)).0

abbrev broken_reading : SensorReading
broken_reading = record empty_reading { sequence = 300; status = reading_error }

-- A slow pass at 2700 is followed by two beats at once.
abbrev slow : List PassInput
slow = quiet 500 ∷ quiet 600 ∷ quiet 2700 ∷ quiet 2701 ∷ []

beats-run_example :
    let k = beats node_two plain slow waiting in
    ((run node_two plain slow waiting).next_beat ≡ 500 + 1000 * k)
    × (2702 < 500 + 1000 * k)
    × (500 + 1000 * k ≤ 2702 + 1000)
unfolding run pass beat_pass wait_pass receive take_reading send_heartbeat note_link beats_end
beats-run_example =
    beats-run node_two plain slow (quiet 2702) waiting (omega arith) (omega arith) refl
