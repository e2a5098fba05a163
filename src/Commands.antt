-- ===== src/Commands.antt =====
-- shared/commands.h and shared/commands.cpp: what a node does when a Command arrives.
pub mod Delivery
pub mod Redelivery
pub mod Texts
pub mod Sample
mod Tests
use climate_node.Common.{
  ℕ, ◌≡◌, ◌≢◌, Bool, true, false, ◌&&◌, List, [], ◌++◌, ◌∷◌, ◌==◌, if◌then◌else◌,
}
use climate_node.Common.Decimal.{codes, format_u32, bounded}
use climate_node.Zephyr.{Rc, success, enomsg}
use climate_node.AppChannels.{
  SensorCmd, set_interval, trigger, sample_period_min_ms, sample_period_max_ms, sensor_cmd_in_range,
}

-- The generated enumeration and structures of proto/node.proto that this part reads and writes. A
-- text is what stands before its NUL. Of the union only `set_interval` has a field.
pub data AckStatus : Type 0 where
  unspecified ack_ok invalid_argument unsupported failed malformed : AckStatus

pub record DeviceInfo : Type 0 where
  pub firmware_version : List ℕ
  pub board : List ℕ
  pub client_id : List ℕ

pub record Command : Type 0 where
  pub schema_version : ℕ  -- uint32_t
  pub sequence : ℕ  -- uint32_t
  pub which_payload : ℕ
  pub interval_ms : ℕ  -- uint32_t

abbrev pub set_interval_tag : ℕ
set_interval_tag = 10

abbrev pub trigger_measurement_tag : ℕ
trigger_measurement_tag = 11

abbrev pub get_device_info_tag : ℕ
get_device_info_tag = 12

abbrev pub firmware_version : List ℕ
firmware_version = codes "0.5.0"

pub record CommandResult : Type 0 where
  pub status : AckStatus
  pub detail : List ℕ
  pub has_info : Bool
  pub info : DeviceInfo

abbrev pub no_info : DeviceInfo
no_info = record { firmware_version = []; board = []; client_id = [] }

-- `*out = {}`
abbrev pub empty_result : CommandResult
empty_result = record { status = unspecified; detail = []; has_info = false; info = no_info }

-- What surrounds the file: `zbus_chan_pub(&chan_sensor_cmd, …)` over the state of the bus, the
-- messages that wait for the sensor thread, the text that `%d` makes of a return code, and the
-- names that a build gives (`CONFIG_BOARD`, `kNodeClientId`).
pub record Node : Type 1 where
  pub Bus : Type 0
  pub publish : SensorCmd → Bus → Rc × Bus
  pub pending : Bus → List SensorCmd
  pub show_rc : Rc → List ℕ
  pub board_name : List ℕ
  pub node_client_id : List ℕ

-- What zbus documents of a channel with a validator and one message subscriber: a message that the
-- validator rejects gives -ENOMSG and changes nothing; a message that it accepts never gives
-- -ENOMSG; a publish that succeeds queues the message, behind those that wait, and one that fails
-- queues nothing.
pub record IsZbus (n : Node) : Type 0 where
  pub rejects :
      (c : SensorCmd) (b : n.Bus) → sensor_cmd_in_range c ≡ false → n.publish c b ≡ (enomsg, b)
  pub accepts :
      (c : SensorCmd) (b : n.Bus) → sensor_cmd_in_range c ≡ true → (n.publish c b).0 ≢ enomsg
  pub queues :
      (c : SensorCmd) (b : n.Bus)
      → (n.publish c b).0 ≡ success
      → n.pending (n.publish c b).1 ≡ n.pending b ++ (c ∷ [])
  pub drops :
      (c : SensorCmd) (b : n.Bus)
      → (n.publish c b).0 ≢ success
      → n.pending (n.publish c b).1 ≡ n.pending b

-- `have_last_command` and `last_command_sequence`.
pub record Dedupe : Type 0 where
  pub have_last_command : Bool
  pub last_command_sequence : ℕ

abbrev pub no_command_yet : Dedupe
no_command_yet = record { have_last_command = false; last_command_sequence = 0 }

abbrev pub interval_text : ℕ → List ℕ
interval_text interval_ms =
    codes "interval "
    ++ (format_u32 interval_ms
        ++ (codes " outside ["
            ++ (format_u32 sample_period_min_ms
                ++ (codes "," ++ (format_u32 sample_period_max_ms ++ codes "]")))))

abbrev pub detail_size : ℕ
detail_size = 48

abbrev pub is_duplicate : Command → Dedupe → Bool
is_duplicate cmd d = d.have_last_command && cmd.sequence == d.last_command_sequence

abbrev pub duplicate_result : CommandResult
duplicate_result = record empty_result {
  status = ack_ok;
  detail = bounded detail_size (codes "duplicate ignored");
}

module _ (n : Node) where
  -- The `switch` of `forward_to_sensor` on the publish's return code.
  forward_status : Rc → SensorCmd → AckStatus × List ℕ
  forward_status success sc = (ack_ok, [])
  forward_status enomsg sc = (invalid_argument, bounded detail_size (interval_text sc.interval_ms))
  forward_status rc sc =
      (failed, bounded detail_size (codes "bus publish failed: " ++ n.show_rc rc))

  unfoldable pub forward_to_sensor : SensorCmd → n.Bus → CommandResult × n.Bus
  unfolding forward_status
  forward_to_sensor sc b =
      let (rc, b') = n.publish sc b in
      let (status, detail) = forward_status rc sc in
      (record empty_result { status = status; detail = detail }, b')

  device_info : DeviceInfo
  device_info = record {
    firmware_version = bounded 16 firmware_version;
    board = bounded 32 n.board_name;
    client_id = bounded 24 n.node_client_id;
  }

  unfoldable pub apply_command : Command → n.Bus → CommandResult × n.Bus
  unfolding device_info
  apply_command cmd b =
      if cmd.which_payload == set_interval_tag
      then forward_to_sensor (record { kind = set_interval; interval_ms = cmd.interval_ms }) b
      else if cmd.which_payload == trigger_measurement_tag
      then forward_to_sensor (record { kind = trigger; interval_ms = 0 }) b
      else if cmd.which_payload == get_device_info_tag
      then (record empty_result { status = ack_ok; has_info = true; info = device_info }, b)
      else (
        record empty_result {
          status = unsupported;
          detail =
              bounded detail_size (codes "unknown command tag " ++ format_u32 cmd.which_payload);
        },
        b,
      )

  unfoldable pub handle_command : Command → Dedupe → n.Bus → CommandResult × Dedupe × n.Bus
  handle_command cmd d b =
      if is_duplicate cmd d
      then (duplicate_result, d, b)
      else let (result, b') = apply_command cmd b in
        (result, record { have_last_command = true; last_command_sequence = cmd.sequence }, b')
