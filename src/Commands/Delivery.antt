-- ===== src/Commands/Delivery.antt =====
-- What a command that is not a repeat does to the sensor thread's queue, and what the Ack says of it.
use climate_node.Common.{
  ℕ, ◌≡◌, ◌≢◌, ◌⊎◌, true, false, Option, none, some, List, [], ◌∷◌, ◌++◌, arith, ◌==◌,
  if◌then◌else◌, length-append, take_all, ◌-◌,
}
use climate_node.Common.Decimal.{codes, bounded, format_u32, length-format_u32-le}
use climate_node.AppChannels.{
  SensorCmd, set_interval, trigger, sensor_cmd_in_range, sample_period_min_ms, sample_period_max_ms,
}
use climate_node.Commands.{
  ack_ok, invalid_argument, unsupported, failed, Command, CommandResult, Node, IsZbus, Dedupe,
  set_interval_tag, trigger_measurement_tag, get_device_info_tag, is_duplicate, interval_text,
  detail_size, forward_to_sensor, apply_command, handle_command,
}

-- The message for the sensor thread that a command asks for, if it asks for one.
abbrev pub sensor_cmd_of : Command → Option SensorCmd
sensor_cmd_of cmd =
    if cmd.which_payload == set_interval_tag
    then some (record { kind = set_interval; interval_ms = cmd.interval_ms })
    else if cmd.which_payload == trigger_measurement_tag
    then some (record { kind = trigger; interval_ms = 0 })
    else none

module _ (n : Node) where
  -- The three outcomes of handing `sc` to the sensor thread: answered with `r`, from `b` to `b'`.
  abbrev pub Outcome : SensorCmd → n.Bus → CommandResult → n.Bus → Type 0
  Outcome sc b r b' =
      ((sensor_cmd_in_range sc ≡ true)
        × (r.status ≡ ack_ok)
        × (n.pending b' ≡ n.pending b ++ (sc ∷ [])))
      ⊎ ((sensor_cmd_in_range sc ≡ false) × (r.status ≡ invalid_argument) × (b' ≡ b))
      ⊎ ((sensor_cmd_in_range sc ≡ true) × (r.status ≡ failed) × (n.pending b' ≡ n.pending b))

  -- A command that asks for no message leaves the bus alone: it is answered OK with the device's
  -- information if its tag is that of GetDeviceInfo, and UNSUPPORTED with none otherwise.
  pub handle_command-local :
      (cmd : Command) (d : Dedupe) (b : n.Bus)
      → is_duplicate cmd d ≡ false
      → sensor_cmd_of cmd ≡ none
      → let (r, d', b') = handle_command n cmd d b in
        (b' ≡ b)
        × (((cmd.which_payload ≡ get_device_info_tag) × (r.status ≡ ack_ok) × (r.has_info ≡ true))
            ⊎ ((cmd.which_payload ≢ get_device_info_tag)
                × (r.status ≡ unsupported)
                × (r.has_info ≡ false)))
  unfolding handle_command apply_command
  handle_command-local cmd d b new e = ground arith

module _ (n : Node) (z : IsZbus n) where
  forward_to_sensor-Outcome :
      (sc : SensorCmd) (b : n.Bus)
      → Outcome n sc b (forward_to_sensor n sc b).0 (forward_to_sensor n sc b).1
  unfolding forward_to_sensor
  forward_to_sensor-Outcome sc b =
      ground (arith, z.rejects sc b, z.accepts sc b, z.queues sc b, z.drops sc b)

  -- A command that is not a repeat and asks for a message to the sensor thread has one of three
  -- outcomes: in range and published, it is queued once and answered OK; out of range, the bus is
  -- as it was and the answer is INVALID_ARGUMENT; in range but not published, nothing is queued and
  -- the answer is FAILED. In each case its sequence number becomes the last one.
  pub handle_command-Outcome :
      (cmd : Command) (d : Dedupe) (b : n.Bus) {sc : SensorCmd}
      → is_duplicate cmd d ≡ false
      → sensor_cmd_of cmd ≡ some sc
      → let (r, d', b') = handle_command n cmd d b in
        Outcome n sc b r b'
        × (d' ≡ record { have_last_command = true; last_command_sequence = cmd.sequence })
  unfolding handle_command apply_command
  handle_command-Outcome cmd d b {sc} new e = ground (arith, forward_to_sensor-Outcome sc b)

interval_tail : List ℕ
interval_tail =
    codes " outside ["
    ++ (format_u32 sample_period_min_ms
        ++ (codes "," ++ (format_u32 sample_period_max_ms ++ codes "]")))

-- The text that explains a refused interval fits the buffer of the Ack, whatever the interval.
pub bounded-interval_text : (ms : ℕ) → bounded detail_size (interval_text ms) ≡ interval_text ms
unfolding interval_tail format_u32
bounded-interval_text ms =
    take_all (detail_size - 1) (interval_text ms)
      (ground (arith, length-format_u32-le ms, length-append (format_u32 ms) interval_tail))
