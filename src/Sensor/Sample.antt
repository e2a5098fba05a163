-- ===== src/Sensor/Sample.antt =====
-- Concrete samples of the sensors, and a conversion that meets what `IsConversion` asks.
use climate_node.Common.{ℕ, ◌%◌, ◌^◌, arith}
use climate_node.Zephyr.{success}
use climate_node.Sensor.{SensorValue}
use climate_node.Sensor.Scd40.{Conversion, Scd40Sample}
use climate_node.Sensor.Bme280.{Bme280Sample}
use climate_node.Sensor.Cycle.{IsConversion}

-- A conversion that keeps the integer part.
abbrev pub integer_part : Conversion
integer_part = record { to_float = λ v. v.val1 % 2 ^ 32; to_whole = λ v. v.val1 % 2 ^ 32 }

pub integer_part-IsConversion : IsConversion integer_part
integer_part-IsConversion = record {
  float_bound = λ v. omega arith;
  whole_bound = λ v. omega arith;
}

abbrev pub value : ℕ → SensorValue
value n = record { val1 = n; val2 = 0 }

abbrev pub warm : Scd40Sample
warm = record { fetch_rc = success; co2 = value 640; temp = value 21; hum = value 45 }

abbrev pub cold : Scd40Sample
cold = record warm { co2 = value 0 }

abbrev pub outside : Bme280Sample
outside = record {
  fetch_rc = success;
  temp = value 4;
  hum = value 80;
  press = record { val1 = 101; val2 = 325999 };
}
