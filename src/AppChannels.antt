-- ===== src/AppChannels.antt =====
-- shared/app_channels.h: the messages of the two channels between a node's sensor thread and its
-- transport, and the rule for commands. An enumeration holds its enumerators only, so the `default`
-- of `sensor_cmd_in_range` has no case. A `float` is its 32-bit pattern; that of 0.0 is 0.
use climate_node.Common.{ℕ, Bool, true, false, ◌&&◌, leb}

abbrev pub sample_period_default_ms : ℕ
sample_period_default_ms = 5000

abbrev pub sample_period_min_ms : ℕ
sample_period_min_ms = 1000

abbrev pub sample_period_max_ms : ℕ
sample_period_max_ms = 300000

pub data SensorReadingStatus : Type 0 where
  reading_ok reading_warming_up reading_error : SensorReadingStatus

pub record SensorReading : Type 0 where
  pub sequence : ℕ  -- uint32_t
  pub uptime_ms : ℕ  -- uint32_t
  pub has_co2_ppm : Bool
  pub co2_ppm : ℕ  -- uint32_t
  pub has_temperature_c : Bool
  pub temperature_c : ℕ  -- float
  pub has_humidity_rh : Bool
  pub humidity_rh : ℕ  -- float
  pub has_pressure_pa : Bool
  pub pressure_pa : ℕ  -- uint32_t
  pub status : SensorReadingStatus

-- `struct sensor_reading reading = {}`
abbrev pub empty_reading : SensorReading
empty_reading = record {
  sequence = 0;
  uptime_ms = 0;
  has_co2_ppm = false;
  co2_ppm = 0;
  has_temperature_c = false;
  temperature_c = 0;
  has_humidity_rh = false;
  humidity_rh = 0;
  has_pressure_pa = false;
  pressure_pa = 0;
  status = reading_ok;
}

pub data SensorCmdKind : Type 0 where
  set_interval trigger : SensorCmdKind

pub record SensorCmd : Type 0 where
  pub kind : SensorCmdKind
  pub interval_ms : ℕ  -- uint32_t

unfoldable pub in_range_for : SensorCmdKind → ℕ → Bool
in_range_for set_interval interval_ms =
    leb sample_period_min_ms interval_ms && leb interval_ms sample_period_max_ms
in_range_for trigger interval_ms = true

unfoldable pub sensor_cmd_in_range : SensorCmd → Bool
unfolding in_range_for
sensor_cmd_in_range cmd = in_range_for cmd.kind cmd.interval_ms
