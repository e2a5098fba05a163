-- ===== src/Sensor/Bme280.antt =====
-- `read_bme280` of peer-node/src/sensor.cpp.
use climate_node.Common.{
  ℕ, ◌+◌, ◌*◌, ◌/◌, ◌%◌, ◌≤◌, ◌<◌, ◌^◌, ◌≡◌, Bool, true, false, ◌↔◌, ◌⊎◌, if◌then◌else◌, arith, not,
}
use climate_node.Zephyr.{Rc, is_success}
use climate_node.AppChannels.{SensorReading, reading_ok, reading_warming_up, reading_error}
use climate_node.Sensor.{SensorValue}
use climate_node.Sensor.Scd40.{Conversion, IsBlank}

pub record Bme280Sample : Type 0 where
  pub fetch_rc : Rc
  pub temp : SensorValue
  pub hum : SensorValue
  pub press : SensorValue

-- Over uint32_t.
unfoldable pub pressure_of : SensorValue → ℕ
pressure_of press = (press.val1 * 1000 % 2 ^ 32 + press.val2 / 1000) % 2 ^ 32

unfoldable pub read_bme280 : Conversion → Bool → Bme280Sample → SensorReading → SensorReading
read_bme280 c device_ok sample out =
    if not device_ok
    then record out { status = reading_error }
    else if not (is_success sample.fetch_rc)
    then record out { status = reading_error }
    else record out {
      temperature_c = c.to_float sample.temp;
      has_temperature_c = true;
      humidity_rh = c.to_float sample.hum;
      has_humidity_rh = true;
      pressure_pa = pressure_of sample.press;
      has_pressure_pa = true;
      status = reading_ok;
    }

-- Into a reading that claims no measurement yet, `read_bme280` reports an error exactly if the device
-- is not ready or the fetch fails, and never a warm-up. Temperature, humidity and pressure are
-- claimed together, exactly if the status is OK, and a CO2 value never. The sequence number and the
-- uptime stay.
pub read_bme280_lem :
    (c : Conversion) (device_ok : Bool) (x : Bme280Sample) (out : SensorReading)
    → IsBlank out
    → let r = read_bme280 c device_ok x out in
      ((r.status ≡ reading_error) ↔ ((device_ok ≡ false) ⊎ (is_success x.fetch_rc ≡ false)))
      × ¬ (r.status ≡ reading_warming_up)
      × ((r.has_temperature_c ≡ true) ↔ (r.status ≡ reading_ok))
      × ((r.has_humidity_rh ≡ true) ↔ (r.status ≡ reading_ok))
      × ((r.has_pressure_pa ≡ true) ↔ (r.status ≡ reading_ok))
      × (r.has_co2_ppm ≡ false)
      × (r.sequence ≡ out.sequence)
      × (r.uptime_ms ≡ out.uptime_ms)
unfolding read_bme280
read_bme280_lem c device_ok x out b = (
  ground arith,
  ground arith,
  ground (arith, b.no_temperature),
  ground (arith, b.no_humidity),
  ground (arith, b.no_pressure),
  ground (arith, b.no_co2),
  ground arith,
  ground arith,
)

-- A pressure below 4294 kPa, as the driver gives it (kilopascals and a fraction below 10^6 of
-- micro-kilopascals), is reported in whole pascals rounded down, so what is lost is less than a
-- pascal, and the 32 bits hold it: a pascal is a thousand of the driver's micro-kilopascals.
pub pressure_of_lem :
    (p : SensorValue)
    → p.val1 < 4294
    → p.val2 < 1000000
    → (pressure_of p * 1000 ≤ p.val1 * 1000000 + p.val2)
      × (p.val1 * 1000000 + p.val2 < (pressure_of p + 1) * 1000)
      × (pressure_of p < 2 ^ 32)
unfolding pressure_of
pressure_of_lem p h1 h2 = (omega arith, omega arith, omega arith)
