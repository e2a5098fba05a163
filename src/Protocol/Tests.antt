-- ===== src/Protocol/Tests.antt =====
-- Messages through the plain encoding.
use climate_node.Common.{◌<◌, ◌≤◌, ◌≡◌, refl, true, false, some, [], ◌∷◌, arith, length}
use climate_node.AppChannels.{SensorReading, empty_reading}
use climate_node.Protocol.{encode_telemetry, decode_command, zero_command}
use climate_node.Protocol.Plain.{plain, plain-IsNanopb}
use climate_node.Protocol.Telemetry.{host_reading, encode_telemetry-host_reading}

-- 800 ppm measured, and a stale temperature whose flag is not set.
abbrev partial_reading : SensorReading
partial_reading = record empty_reading {
  sequence = 4_000_000_000;
  uptime_ms = 5000;
  has_co2_ppm = true;
  co2_ppm = 800;
  temperature_c = 77;
}

encode_telemetry-host_reading_example :
    (0 < length (encode_telemetry plain partial_reading 42))
    × (length (encode_telemetry plain partial_reading 42) ≤ 42)
    × (host_reading plain (encode_telemetry plain partial_reading 42)
        ≡ some (record partial_reading { temperature_c = 0 }))
encode_telemetry-host_reading_example =
    encode_telemetry-host_reading plain plain-IsNanopb partial_reading (omega arith)

oversized_refused : decode_command plain (1 ∷ 10 ∷ 2000 ∷ []) true ≡ (false, zero_command)
unfolding decode_command
oversized_refused = refl
