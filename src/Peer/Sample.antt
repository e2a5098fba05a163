-- ===== src/Peer/Sample.antt =====
-- A peer that waits for its first beat, and a pass of its loop in which nothing comes.
use climate_node.Common.{ℕ, true, false, some, []}
use climate_node.Zephyr.{success}
use climate_node.AppChannels.{empty_reading}
use climate_node.Commands.{no_command_yet}
use climate_node.Commands.Sample.{node_two}
use climate_node.Protocol.Plain.{plain}
use climate_node.Peer.{link_at_boot, beats_at_boot, error_active, BeatInput}
use climate_node.Peer.Loop.{PassInput, nothing, PeerState}

abbrev pub waiting : PeerState node_two plain
waiting = record {
  link = link_at_boot;
  beats = beats_at_boot;
  next_beat = 500;
  telemetry = empty_reading;
  telemetry_pending = false;
  dedupe = no_command_yet;
  bus = [];
}

-- A beat that is accepted; none ends meanwhile.
abbrev pub prompt_beat : ℕ → BeatInput
prompt_beat now = record {
  filled = now;
  can_send_rc = success;
  ended = [];
  ended_late = [];
  noted = now;
}

abbrev pub quiet : ℕ → PassInput
quiet now = record {
  now = now;
  ended_before = [];
  beat_can_state = some error_active;
  beat_input = prompt_beat now;
  received = nothing;
  answer_rc = success;
  published = [];
  published_late = [];
  can_read = true;
  can_state = some error_active;
  test_now = now;
  telemetry_rc = success;
  telemetry_noted = now;
}
