-- ===== src/Sensor/Tests.antt =====
-- The sensor threads at concrete samples and commands.
use climate_node.Common.{
  ◌+◌, ◌*◌, ◌^◌, ◌≤◌, ◌<◌, ◌≡◌, ◌⊎◌, ◌↔◌, refl, true, false, List, [], ◌∷◌, ◌++◌, arith,
}
use climate_node.Zephyr.{success, is_success}
use climate_node.AppChannels.{
  empty_reading, reading_warming_up, reading_error, SensorCmd, set_interval, sensor_cmd_in_range,
  in_range_for,
}
use climate_node.Sensor.{Turn, elsewhere, commanded, on_command, on_woken, wait_out}
use climate_node.Sensor.Scd40.{read_scd40, IsBlank, read_scd40_lem}
use climate_node.Sensor.Bme280.{pressure_of, pressure_of_lem}
use climate_node.Sensor.Sample.{integer_part, warm, cold, outside}
use climate_node.Sensor.Wait.{InBounds, GoesOn, wait_out_lem, wait_out_ends}

empty_reading-IsBlank : IsBlank empty_reading
empty_reading-IsBlank = record {
  no_co2 = refl;
  no_temperature = refl;
  no_humidity = refl;
  no_pressure = refl;
}

cold_start : (read_scd40 integer_part true cold empty_reading).status ≡ reading_warming_up
unfolding read_scd40
cold_start = refl

read_scd40_lem_example :
    ((read_scd40 integer_part true warm empty_reading).status ≡ reading_error)
    ↔ ((true ≡ false) ⊎ (is_success success ≡ false))
read_scd40_lem_example =
    (read_scd40_lem integer_part true warm empty_reading empty_reading-IsBlank).0

sea_level : pressure_of outside.press ≡ 101325
unfolding pressure_of
sea_level = refl

pressure_of_lem_example :
    (pressure_of outside.press * 1000 ≤ 101325999)
    × (101325999 < (pressure_of outside.press + 1) * 1000)
    × (pressure_of outside.press < 2 ^ 32)
pressure_of_lem_example = pressure_of_lem outside.press (omega arith) (omega arith)

-- A command for a period of 2 s, then a look at 3 s after the sample.
abbrev faster : SensorCmd
faster = record { kind = set_interval; interval_ms = 2000 }

abbrev faster_at_once : List Turn
faster_at_once = record { now = 101000; woken = commanded faster } ∷ []

abbrev look_late : Turn
look_late = record { now = 400000; woken = elsewhere }

faster-sensor_cmd_in_range : sensor_cmd_in_range faster ≡ true
unfolding sensor_cmd_in_range in_range_for
faster-sensor_cmd_in_range = refl

shortened :
    wait_out 100000 5000 (record { now = 101000; woken = commanded faster } ∷ look_late ∷ [])
    ≡ (true, 2000)
unfolding wait_out on_woken on_command
shortened = refl

wait_out_lem_example :
    (((wait_out 100000 5000 faster_at_once).0 ≡ false) ↔ GoesOn 100000 5000 faster_at_once)
    × ((wait_out 100000 5000 faster_at_once ≡ (false, 2000)) ↔ GoesOn 100000 5000 faster_at_once)
wait_out_lem_example = wait_out_lem 100000 5000 faster_at_once

wait_out_ends_example :
    ((wait_out 100000 5000 (faster_at_once ++ (look_late ∷ []))).0 ≡ true)
    × InBounds (wait_out 100000 5000 (faster_at_once ++ (look_late ∷ []))).1
wait_out_ends_example =
    wait_out_ends 100000 5000 faster_at_once look_late (faster-sensor_cmd_in_range, tt) tt
      (omega arith, omega arith) (omega arith)
