-- ===== src/Peer/Loop/Tests.antt =====
-- The peer's loop at concrete passes: beats that the bus does not take, and readings among them.
use climate_node.Common.{ℕ, ◌≡◌, inl, refl, true, false, List, [], ◌∷◌, ◌++◌, map, some, arith}
use climate_node.Zephyr.{success, eagain}
use climate_node.AppChannels.{SensorReading, empty_reading, reading_error}
use climate_node.Commands.Sample.{node_two}
use climate_node.Protocol.Plain.{plain, plain-IsNanopb}
use climate_node.Peer.{bus_off, note_link, beats_end, send_heartbeat}
use climate_node.Peer.Sample.{waiting, quiet}
use climate_node.Peer.Loop.{PassInput, isotp, pass, beat_pass, wait_pass, receive}
use climate_node.Peer.Loop.Cadence.{run}
use climate_node.Peer.Loop.Backoff.{IsLink, run-IsLink}
use climate_node.Peer.Loop.Backoff.Sending.{GoesOutIf, backoff_never_decides}
use climate_node.Peer.Loop.Outstanding.{OneOutstanding, run-OneOutstanding}

abbrev bus_off_at : ℕ → PassInput
bus_off_at now = record (quiet now) { beat_can_state = some bus_off }

-- Two beats are not sent, 1000 ms apart, and a pass comes between.
abbrev off_the_bus : List PassInput
off_the_bus = bus_off_at 500 ∷ quiet 700 ∷ bus_off_at 1500 ∷ []

run-IsLink_example : IsLink 1500 (run node_two plain off_the_bus waiting).link
unfolding pass beat_pass wait_pass receive
run-IsLink_example = run-IsLink node_two plain 0 off_the_bus waiting (inl (refl, refl))

abbrev broken_reading : SensorReading
broken_reading = record empty_reading { sequence = 300; status = reading_error }

abbrev with_broken_reading : ℕ → PassInput
with_broken_reading now = record (quiet now) {
  published = empty_reading ∷ [];
  published_late = broken_reading ∷ [];
}

-- 700 ms after the second failure the controller can transmit again, and the reading is still held
-- back.
backoff_never_decides_example :
    (answers : List (List ℕ)) × (frames : List (List ℕ)) × ((pass node_two plain
        (with_broken_reading 2200)
        (run node_two plain off_the_bus waiting)).0
      ≡ map isotp (answers ++ frames))
    × GoesOutIf node_two plain
        (run node_two plain off_the_bus waiting).link.link_up
        broken_reading
        frames
unfolding run pass beat_pass wait_pass receive
backoff_never_decides_example =
    backoff_never_decides node_two plain plain-IsNanopb (omega arith) 0 off_the_bus waiting
      (with_broken_reading 2200) (refl, refl) (omega arith) refl refl refl (omega arith)

-- No reading is sent, and the first beat ends before the second.
abbrev heard : List PassInput
heard =
    record (quiet 500) { telemetry_rc = eagain }
    ∷ record (quiet 1500) { ended_before = success ∷ []; telemetry_rc = eagain }
    ∷ []

run-OneOutstanding_example :
    let s = run node_two plain heard waiting in OneOutstanding s.link s.beats
run-OneOutstanding_example =
    run-OneOutstanding node_two plain heard waiting
      ((λ e. ground (arith, e)), ((λ e. ground (arith, e)), tt)) (λ _. omega arith)

heard_keeps_link_up : (run node_two plain heard waiting).link.link_up ≡ true
unfolding run pass beat_pass send_heartbeat beats_end note_link
heard_keeps_link_up = refl

unheard_takes_link_down :
    (run node_two plain (quiet 500 ∷ quiet 1500 ∷ []) waiting).link.link_up ≡ false
unfolding run pass beat_pass send_heartbeat beats_end note_link
unheard_takes_link_down = refl
