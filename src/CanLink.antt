-- ===== src/CanLink.antt =====
-- shared/can_link.h: the identifiers of the CAN link and the heartbeat frame. A `uint8_t` is a
-- number below 256, a frame's data a list of such; the identifiers wrap at 16 bits as in the source.
pub mod Addresses
pub mod Frame
mod Tests
use climate_node.Common.{
  ℕ, ◌+◌, ◌-◌, ◌*◌, ◌/◌, ◌%◌, ◌^◌, Bool, true, false, ◌||◌, Option, none, some, List, [], ◌∷◌, not,
  ltb, ◌==◌, if◌then◌else◌, get_or, length,
}

abbrev pub gateway_node_id : ℕ
gateway_node_id = 1

abbrev pub first_peer_node_id : ℕ
first_peer_node_id = 2

abbrev pub max_peer_node_id : ℕ
max_peer_node_id = first_peer_node_id + 3

abbrev pub heartbeat_id_base : ℕ
heartbeat_id_base = 0x700

abbrev pub isotp_to_peer_base : ℕ
isotp_to_peer_base = 0x7e0

abbrev pub isotp_fc_to_gateway_base : ℕ
isotp_fc_to_gateway_base = 0x7e4

abbrev pub isotp_to_gateway_base : ℕ
isotp_to_gateway_base = 0x7e8

abbrev pub isotp_fc_to_peer_base : ℕ
isotp_fc_to_peer_base = 0x7ec

-- A conversion to `uint16_t`. Each base is more than `first_peer_node_id`, so the truncated
-- subtraction is exact also for the node ids below it.
abbrev u16 : ℕ → ℕ
u16 n = n % 2 ^ 16

unfoldable pub heartbeat_id : ℕ → ℕ
heartbeat_id node_id = u16 (heartbeat_id_base + node_id)

unfoldable pub isotp_id_to_peer : ℕ → ℕ
isotp_id_to_peer node_id = u16 (isotp_to_peer_base + node_id - first_peer_node_id)

unfoldable pub isotp_id_to_gateway : ℕ → ℕ
isotp_id_to_gateway node_id = u16 (isotp_to_gateway_base + node_id - first_peer_node_id)

unfoldable pub isotp_fc_id_to_gateway : ℕ → ℕ
isotp_fc_id_to_gateway node_id = u16 (isotp_fc_to_gateway_base + node_id - first_peer_node_id)

unfoldable pub isotp_fc_id_to_peer : ℕ → ℕ
isotp_fc_id_to_peer node_id = u16 (isotp_fc_to_peer_base + node_id - first_peer_node_id)

-- `enum relay_msg_type`, as the byte that travels.
abbrev pub relay_msg_telemetry : ℕ
relay_msg_telemetry = 1

abbrev pub relay_msg_ack : ℕ
relay_msg_ack = 2

abbrev pub relay_msg_command : ℕ
relay_msg_command = 3

abbrev pub heartbeat_layout_version : ℕ
heartbeat_layout_version = 1

abbrev pub heartbeat_len : ℕ
heartbeat_len = 8

abbrev pub heartbeat_period_ms : ℕ
heartbeat_period_ms = 1000

abbrev pub heartbeat_timeout_ms : ℕ
heartbeat_timeout_ms = 3500

pub data HeartbeatState : Type 0 where
  boot warming_up running sensor_error : HeartbeatState

-- The value of each enumerator, and the cast back of a byte that was checked to be at most 3.
unfoldable pub state_byte : HeartbeatState → ℕ
state_byte boot = 0
state_byte warming_up = 1
state_byte running = 2
state_byte sensor_error = 3

unfoldable pub state_of_byte : ℕ → HeartbeatState
state_of_byte b =
    if b == 0 then boot else if b == 1 then warming_up else if b == 2 then running else sensor_error

pub record Heartbeat : Type 0 where
  pub state : HeartbeatState
  pub uptime_s : ℕ  -- uint32_t
  pub sequence_low : ℕ  -- uint8_t

-- `(x >> k) & 0xFF` is `x / 2 ^ k % 256`.
unfoldable pub heartbeat_pack : Heartbeat → List ℕ
unfolding state_byte
heartbeat_pack hb =
    heartbeat_layout_version
    ∷ state_byte hb.state
    ∷ (hb.uptime_s % 256)
    ∷ (hb.uptime_s / 2 ^ 8 % 256)
    ∷ (hb.uptime_s / 2 ^ 16 % 256)
    ∷ (hb.uptime_s / 2 ^ 24 % 256)
    ∷ hb.sequence_low
    ∷ 0xff
    ∷ []

-- The bytes are disjoint under their shifts, so `|` is a sum. `len` is what the driver reports, and
-- `frame` holds at least that many bytes; a read past the list would be 0 and does not happen.
unfoldable pub heartbeat_unpack : List ℕ → ℕ → Option Heartbeat
unfolding state_of_byte
heartbeat_unpack frame len =
    if not (len == heartbeat_len) || not (get_or frame 0 0 == heartbeat_layout_version)
    then none
    else if ltb 3 (get_or frame 1 0)
    then none
    else some (record {
      state = state_of_byte (get_or frame 1 0);
      uptime_s =
          get_or frame 2 0
          + get_or frame 3 0 * 2 ^ 8
          + get_or frame 4 0 * 2 ^ 16
          + get_or frame 5 0 * 2 ^ 24;
      sequence_low = get_or frame 6 0;
    })
