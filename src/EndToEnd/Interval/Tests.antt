-- ===== src/EndToEnd/Interval/Tests.antt =====
-- A command for another interval, taken by the sensor thread during its first wait.
use climate_node.Common.{◌≡◌, refl, true, List, [], ◌∷◌, ◌++◌}
use climate_node.Common.Decimal.{All}
use climate_node.AppChannels.{SensorCmd, set_interval, sensor_cmd_in_range, in_range_for}
use climate_node.Commands.{
  Command, set_interval_tag, no_command_yet, Dedupe, handle_command, apply_command,
  forward_to_sensor,
}
use climate_node.Commands.Sample.{node_two, node_two-IsZbus}
use climate_node.Sensor.{commanded, timed_out}
use climate_node.Sensor.Cycle.{CycleInput, Numbered, sensor_at_boot, gateway_sensor_run}
use climate_node.Sensor.Scd40.{Scd40Sample}
use climate_node.Sensor.Sample.{integer_part, warm}
use climate_node.Sensor.Wait.{InBounds}
use climate_node.EndToEnd.Interval.{Served, start, handled, took, served_in_order}
use climate_node.EndToEnd.Interval.Runs.{served_sensor_run}

abbrev command : Command
command = record {
  schema_version = 1;
  sequence = 7;
  which_payload = set_interval_tag;
  interval_ms = 2000;
}

abbrev two_seconds : SensorCmd
two_seconds = record { kind = set_interval; interval_ms = 2000 }

abbrev last_seven : Dedupe
last_seven = record { have_last_command = true; last_command_sequence = 7 }

interleaved : Served node_two no_command_yet [] (two_seconds ∷ []) (two_seconds ∷ []) last_seven []
unfolding handle_command apply_command forward_to_sensor sensor_cmd_in_range in_range_for
interleaved = took two_seconds [] refl (handled command start)

served_in_order_example :
    ((two_seconds ∷ []) ++ [] ≡ two_seconds ∷ [])
    × All (λ c. sensor_cmd_in_range c ≡ true) (two_seconds ∷ [])
served_in_order_example =
    served_in_order node_two node_two-IsZbus no_command_yet [] last_seven [] (two_seconds ∷ [])
      (two_seconds ∷ []) interleaved

abbrev cycles : List (CycleInput Scd40Sample)
cycles =
    record {
      uptime = 100;
      sample = warm;
      last_sample = 110;
      turns =
          record { now = 1000; woken = commanded two_seconds }
          ∷ record { now = 1001; woken = timed_out }
          ∷ [];
    }
    ∷ record { uptime = 2200; sample = warm; last_sample = 2210; turns = [] }
    ∷ []

served_sensor_run_example :
    Numbered 0 (gateway_sensor_run integer_part true cycles sensor_at_boot).0
    × InBounds (gateway_sensor_run integer_part true cycles sensor_at_boot).1.period_ms
served_sensor_run_example =
    served_sensor_run node_two node_two-IsZbus no_command_yet [] last_seven [] (two_seconds ∷ [])
      (two_seconds ∷ []) integer_part true cycles refl interleaved refl
