-- ===== src/Commands/Tests.antt =====
-- Command handling at concrete commands.
use climate_node.Common.{ℕ, ◌≡◌, refl, true, List, [], ◌∷◌}
use climate_node.Common.Decimal.{codes, format_u32}
use climate_node.AppChannels.{SensorCmd, set_interval, trigger, sensor_cmd_in_range}
use climate_node.Commands.{
  ack_ok, Command, no_command_yet, forward_to_sensor, apply_command, handle_command,
}
use climate_node.Commands.Sample.{node_two, node_two-IsZbus}
use climate_node.Commands.Delivery.{Outcome, handle_command-Outcome}
use climate_node.Commands.Redelivery.{
  distinct_commands, handle_all, apply_all, handle_all-distinct_commands,
  handle_command_again_after_failure,
}

abbrev interval_command : ℕ → ℕ → Command
interval_command seq ms = record {
  schema_version = 1;
  sequence = seq;
  which_payload = 10;
  interval_ms = ms;
}

abbrev trigger_command : ℕ → Command
trigger_command seq = record {
  schema_version = 1;
  sequence = seq;
  which_payload = 11;
  interval_ms = 0;
}

abbrev triggered : SensorCmd
triggered = record { kind = trigger; interval_ms = 0 }

abbrev full_queue : List SensorCmd
full_queue = triggered ∷ triggered ∷ triggered ∷ triggered ∷ []

slow_refused :
    (handle_command node_two (interval_command 0 999) no_command_yet []).0.detail
    ≡ codes "interval 999 outside [1000,300000]"
unfolding handle_command apply_command forward_to_sensor sensor_cmd_in_range format_u32
slow_refused = refl

first_zero_not_duplicate :
    (handle_command node_two (trigger_command 0) no_command_yet []).2 ≡ triggered ∷ []
unfolding handle_command apply_command forward_to_sensor sensor_cmd_in_range
first_zero_not_duplicate = refl

handle_command-Outcome_example :
    let (r, d', b') = handle_command node_two (interval_command 7 2000) no_command_yet [] in
    Outcome node_two (record { kind = set_interval; interval_ms = 2000 }) [] r b'
    × (d' ≡ record { have_last_command = true; last_command_sequence = 7 })
handle_command-Outcome_example =
    handle_command-Outcome node_two node_two-IsZbus (interval_command 7 2000) no_command_yet []
      {sc = record { kind = set_interval; interval_ms = 2000 }} refl refl

abbrev unknown_command : Command
unknown_command = record { schema_version = 2; sequence = 3; which_payload = 13; interval_ms = 0 }

abbrev redelivered : List Command
redelivered =
    trigger_command 1 ∷ trigger_command 1 ∷ interval_command 2 2000 ∷ interval_command 2 2000 ∷ []

handle_all-distinct_commands_example :
    handle_all node_two redelivered no_command_yet []
    ≡ apply_all node_two (trigger_command 1 ∷ interval_command 2 2000 ∷ []) []
unfolding distinct_commands
handle_all-distinct_commands_example =
    handle_all-distinct_commands node_two redelivered no_command_yet []

handle_command_again_after_failure_example :
    let (r, d', b') = handle_command node_two (trigger_command 9) no_command_yet full_queue in
    let (again, _, b'') = handle_command node_two (trigger_command 9) d' b' in
    (again.status ≡ ack_ok) × (b'' ≡ full_queue)
unfolding handle_command apply_command forward_to_sensor sensor_cmd_in_range
handle_command_again_after_failure_example =
    handle_command_again_after_failure node_two node_two-IsZbus (trigger_command 9) no_command_yet
      full_queue refl
