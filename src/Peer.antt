-- ===== src/Peer.antt =====
-- peer-node/src/main.cpp: the peer's conversation with the gateway over CAN. Times are uptimes in
-- milliseconds; what the drivers and the other threads do is an argument of each operation.
pub mod Link
pub mod Answer
pub mod Loop
pub mod SetUp
pub mod Sample
mod Tests
use climate_node.Common.{
  ℕ, zero, suc, ◌+◌, ◌*◌, ◌/◌, ◌%◌, ◌^◌, ◌≤◌, ◌<◌, min, Bool, true, false, ◌&&◌, ◌||◌, not, List,
  [], ◌∷◌, ◌++◌, Option, some, none, leb, ltb, ◌==◌, if◌then◌else◌, length, arith,
}
use climate_node.Common.Decimal.{codes}
use climate_node.Zephyr.{Rc, success, ebusy, emsgsize, einval, is_success}
use climate_node.AppChannels.{SensorReading, SensorReadingStatus, reading_error}
use climate_node.CanLink.{
  first_peer_node_id, heartbeat_id, heartbeat_len, heartbeat_period_ms, relay_msg_telemetry,
  relay_msg_ack, relay_msg_command, HeartbeatState, boot, running, sensor_error, Heartbeat,
  heartbeat_pack,
}
use climate_node.Commands.{
  Node, Command, CommandResult, DeviceInfo, Dedupe, malformed, handle_command,
}
use climate_node.Protocol.{Nanopb, encode_telemetry, encode_ack, decode_command}

abbrev pub node_id : ℕ
node_id = first_peer_node_id

abbrev pub tx_backoff_min_ms : ℕ
tx_backoff_min_ms = 2000

abbrev pub tx_backoff_max_ms : ℕ
tx_backoff_max_ms = 30000

pub record LinkState : Type 0 where
  pub link_up : Bool
  pub tx_backoff_ms : ℕ  -- uint32_t
  pub tx_retry_at : ℕ  -- int64_t

abbrev pub link_at_boot : LinkState
link_at_boot = record { link_up = true; tx_backoff_ms = 0; tx_retry_at = 0 }

-- Doubling, capped. `MIN` is over uint32_t.
unfoldable pub next_backoff : ℕ → ℕ
next_backoff backoff =
    if backoff == 0 then tx_backoff_min_ms else min (backoff * 2 % 2 ^ 32) tx_backoff_max_ms

-- `now` is the uptime that a failure reads.
unfoldable pub note_link : Bool → ℕ → LinkState → LinkState
note_link ok now l =
    if ok
    then record l { link_up = true; tx_backoff_ms = 0 }
    else let backoff = next_backoff l.tx_backoff_ms in
      record { link_up = false; tx_backoff_ms = backoff; tx_retry_at = now + backoff }

pub data CanState : Type 0 where
  error_active error_warning error_passive bus_off stopped : CanState

-- `can_get_state`: none when it fails.
abbrev pub bus_transmittable : Option CanState → Bool
bus_transmittable none = true
bus_transmittable (some bus_off) = false
bus_transmittable (some stopped) = false
bus_transmittable (some _) = true

-- The frames handed to `isotp_send`, and what `send_message` returns when `isotp_send` gives `rc`.
unfoldable pub send_message : Nanopb → ℕ → List ℕ → Rc → Rc × List (List ℕ)
send_message pb type payload rc =
    if ltb (1 + pb.ack_size) (length payload + 1)
    then (emsgsize, [])
    else (rc, (type ∷ payload) ∷ [])

unfoldable pub send_telemetry : Nanopb → SensorReading → Rc → Rc × List (List ℕ)
send_telemetry pb reading rc =
    let payload = encode_telemetry pb reading pb.telemetry_size in
    if length payload == 0 then (einval, []) else send_message pb relay_msg_telemetry payload rc

-- `beats_in_flight` is the difference of its increments and decrements: the interrupt may count a
-- beat as completed before the thread has counted it as queued.
pub record BeatState : Type 0 where
  pub hb_state : Heartbeat
  pub beats_queued : ℕ
  pub beats_completed : ℕ
  pub last_beat_error : Rc

abbrev pub beats_at_boot : BeatState
beats_at_boot = record {
  hb_state = record { state = boot; uptime_s = 0; sequence_low = 0 };
  beats_queued = 0;
  beats_completed = 0;
  last_beat_error = success;
}

-- The interrupt that ends a beat.
unfoldable pub heartbeat_sent : Rc → BeatState → BeatState
heartbeat_sent error b = record b {
  beats_completed = b.beats_completed + 1;
  last_beat_error = error;
}

pub record BeatFrame : Type 0 where
  pub id : ℕ
  pub dlc : ℕ
  pub frame_data : List ℕ

-- The interrupt, once for each result.
unfoldable pub beats_end : List Rc → BeatState → BeatState
unfolding heartbeat_sent
beats_end [] b = b
beats_end (error ∷ errors) b = beats_end errors (heartbeat_sent error b)

-- What the kernel and the driver do while a beat is sent.
pub record BeatInput : Type 0 where
  pub filled : ℕ  -- the uptime that the frame is filled at
  pub can_send_rc : Rc
  -- The results of the beats that end before `last_beat_error` is read, and between that and the look
  -- at `beats_in_flight`.
  pub ended : List Rc
  pub ended_late : List Rc
  pub noted : ℕ  -- the uptime of `note_link`

-- The verdict of `send_heartbeat` on the beats once its own is queued.
abbrev beat_error : BeatInput → BeatState → Rc
beat_error i b =
    let err = if is_success i.can_send_rc then b.last_beat_error else i.can_send_rc in
    let later = beats_end i.ended_late b in
    if is_success err && ltb (later.beats_completed + 1) later.beats_queued then ebusy else err

unfoldable pub send_heartbeat :
    BeatInput → BeatState → LinkState → BeatFrame × BeatState × LinkState
send_heartbeat i b l =
    let hb = record b.hb_state { uptime_s = i.filled / 1000 % 2 ^ 32 } in
    let queued = if is_success i.can_send_rc then b.beats_queued + 1 else b.beats_queued in
    let b' = beats_end i.ended (record b { hb_state = hb; beats_queued = queued }) in
    (
      record { id = heartbeat_id node_id; dlc = heartbeat_len; frame_data = heartbeat_pack hb },
      beats_end i.ended_late b',
      note_link (is_success (beat_error i b')) i.noted l,
    )

-- The peer's half of a command: what it sends back, and the state of shared/commands.cpp.
module _ (n : Node) (pb : Nanopb) where
  abbrev pub info_if : CommandResult → Option DeviceInfo
  info_if result = if result.has_info then some result.info else none

  -- The Ack goes out if it was encoded; the result of sending it is not looked at.
  abbrev pub send_ack : List ℕ → Rc → List (List ℕ)
  send_ack payload rc =
      if ltb 0 (length payload) then (send_message pb relay_msg_ack payload rc).1 else []

  pub handle_decoded : Bool × Command → Rc → Dedupe → n.Bus → List (List ℕ) × Dedupe × n.Bus
  handle_decoded (false, _) rc d b = (
    send_ack (encode_ack pb 0 malformed (some (codes "decode failed")) none pb.ack_size) rc,
    d,
    b,
  )
  handle_decoded (true, cmd) rc d b =
      let (result, d', b') = handle_command n cmd d b in
      (
        send_ack
            (encode_ack pb cmd.sequence result.status (some result.detail) (info_if result)
              pb.ack_size)
            rc,
        d',
        b',
      )

  unfoldable pub handle_incoming : List ℕ → Rc → Dedupe → n.Bus → List (List ℕ) × Dedupe × n.Bus
  unfolding handle_decoded
  handle_incoming [] rc d b = ([], d, b)
  handle_incoming (type ∷ payload) rc d b =
      if type == relay_msg_command
      then handle_decoded (decode_command pb payload false) rc d b
      else ([], d, b)
