-- ===== src/Sensor/Scd40.antt =====
-- `read_scd40` of gateway/src/sensor.cpp. Zephyr's conversion of a sensor value to a double, followed
-- by the cast to float or uint32_t, is a parameter.
use climate_node.Common.{ℕ, ◌≤◌, ◌≡◌, Bool, true, false, ◌↔◌, ◌⊎◌, ◌==◌, if◌then◌else◌, arith, not}
use climate_node.Zephyr.{Rc, is_success}
use climate_node.AppChannels.{SensorReading, reading_ok, reading_warming_up, reading_error}
use climate_node.Sensor.{SensorValue}

-- `static_cast<float>` and `static_cast<uint32_t>` of `sensor_value_to_double`.
pub record Conversion : Type 0 where
  pub to_float : SensorValue → ℕ
  pub to_whole : SensorValue → ℕ

-- What the driver answers: `sensor_sample_fetch`, then `sensor_channel_get` of each channel.
pub record Scd40Sample : Type 0 where
  pub fetch_rc : Rc
  pub co2 : SensorValue
  pub temp : SensorValue
  pub hum : SensorValue

unfoldable pub read_scd40 : Conversion → Bool → Scd40Sample → SensorReading → SensorReading
read_scd40 c device_ok sample out =
    if not device_ok
    then record out { status = reading_error }
    else if not (is_success sample.fetch_rc)
    then record out { status = reading_error }
    else if c.to_whole sample.co2 == 0
    then record out { status = reading_warming_up }
    else record out {
      co2_ppm = c.to_whole sample.co2;
      has_co2_ppm = true;
      temperature_c = c.to_float sample.temp;
      has_temperature_c = true;
      humidity_rh = c.to_float sample.hum;
      has_humidity_rh = true;
      status = reading_ok;
    }

-- A reading that claims no measurement.
pub record IsBlank (r : SensorReading) : Type 0 where
  pub no_co2 : r.has_co2_ppm ≡ false
  pub no_temperature : r.has_temperature_c ≡ false
  pub no_humidity : r.has_humidity_rh ≡ false
  pub no_pressure : r.has_pressure_pa ≡ false

-- Into a reading that claims no measurement yet, `read_scd40` reports an error exactly if the device
-- is not ready or the fetch fails, and else a warm-up exactly if the sensor gives 0 ppm. The three
-- measurements it has are claimed together, exactly if the status is OK, and then the CO2 is not 0;
-- a pressure is never claimed. The sequence number and the uptime stay.
pub read_scd40_lem :
    (c : Conversion) (device_ok : Bool) (x : Scd40Sample) (out : SensorReading)
    → IsBlank out
    → let r = read_scd40 c device_ok x out in
      ((r.status ≡ reading_error) ↔ ((device_ok ≡ false) ⊎ (is_success x.fetch_rc ≡ false)))
      × ((r.status ≡ reading_warming_up)
          ↔ ((device_ok ≡ true) × (is_success x.fetch_rc ≡ true) × (c.to_whole x.co2 ≡ 0)))
      × ((r.has_co2_ppm ≡ true) ↔ (r.status ≡ reading_ok))
      × ((r.has_temperature_c ≡ true) ↔ (r.status ≡ reading_ok))
      × ((r.has_humidity_rh ≡ true) ↔ (r.status ≡ reading_ok))
      × ((r.status ≡ reading_ok) ↔ ((r.has_co2_ppm ≡ true) × (1 ≤ r.co2_ppm)))
      × (r.has_pressure_pa ≡ false)
      × (r.sequence ≡ out.sequence)
      × (r.uptime_ms ≡ out.uptime_ms)
unfolding read_scd40
read_scd40_lem c device_ok x out b = (
  ground arith,
  ground arith,
  ground (arith, b.no_co2),
  ground (arith, b.no_temperature),
  ground (arith, b.no_humidity),
  ground (arith, b.no_co2),
  ground (arith, b.no_pressure),
  ground arith,
  ground arith,
)
