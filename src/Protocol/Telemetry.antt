-- ===== src/Protocol/Telemetry.antt =====
-- What a host reads of a Telemetry message that the firmware encoded.
use climate_node.Common.{
  ℕ, ◌<◌, ◌≤◌, ◌^◌, ◌≡◌, Option, none, some, List, arith, ◌==◌, if◌then◌else◌, length,
}
use climate_node.AppChannels.{
  SensorReading, SensorReadingStatus, reading_ok, reading_warming_up, reading_error,
}
use climate_node.Protocol.{
  WireStatus, status_unspecified, status_ok, status_warming_up, status_error, schema_version,
  TelemetryMessage, Nanopb, IsNanopb, TelemetryFits, telemetry_message, encode_telemetry,
}

abbrev status_of_wire : WireStatus → Option SensorReadingStatus
status_of_wire status_unspecified = none
status_of_wire status_ok = some reading_ok
status_of_wire status_warming_up = some reading_warming_up
status_of_wire status_error = some reading_error

abbrev reading_with : TelemetryMessage → Option SensorReadingStatus → Option SensorReading
reading_with m none = none
reading_with m (some status) = some (record {
  sequence = m.sequence;
  uptime_ms = m.uptime_ms;
  has_co2_ppm = m.has_co2_ppm;
  co2_ppm = m.co2_ppm;
  has_temperature_c = m.has_temperature_c;
  temperature_c = m.temperature_c;
  has_humidity_rh = m.has_humidity_rh;
  humidity_rh = m.humidity_rh;
  has_pressure_pa = m.has_pressure_pa;
  pressure_pa = m.pressure_pa;
  status = status;
})

-- The reading that a message of this schema version reports.
abbrev pub reading_of : TelemetryMessage → Option SensorReading
reading_of m =
    if m.schema_version == schema_version
    then reading_with m (status_of_wire m.sensor_status)
    else none

abbrev reading_if_decoded : Option TelemetryMessage → Option SensorReading
reading_if_decoded none = none
reading_if_decoded (some m) = reading_of m

-- The message read by a host, and from it the reading.
abbrev pub host_reading : Nanopb → List ℕ → Option SensorReading
host_reading pb bytes = reading_if_decoded (pb.host_decode_telemetry bytes)

-- What is visible of a reading: a measurement whose flag is not set is none, whatever its field
-- holds.
abbrev pub visible : SensorReading → SensorReading
visible r = record r {
  co2_ppm = if r.has_co2_ppm then r.co2_ppm else 0;
  temperature_c = if r.has_temperature_c then r.temperature_c else 0;
  humidity_rh = if r.has_humidity_rh then r.humidity_rh else 0;
  pressure_pa = if r.has_pressure_pa then r.pressure_pa else 0;
}

reading_of-telemetry_message :
    (r : SensorReading) → reading_of (telemetry_message r) ≡ some (visible r)
unfolding telemetry_message
reading_of-telemetry_message r = ground arith

-- The numbers of a reading are within 32 bits, as their types are.
abbrev pub ReadingFits : SensorReading → Type 0
ReadingFits r =
    (r.sequence < 2 ^ 32)
    × (r.uptime_ms < 2 ^ 32)
    × (r.co2_ppm < 2 ^ 32)
    × (r.temperature_c < 2 ^ 32)
    × (r.humidity_rh < 2 ^ 32)
    × (r.pressure_pa < 2 ^ 32)

telemetry_message-TelemetryFits :
    (r : SensorReading) → ReadingFits r → TelemetryFits (telemetry_message r)
unfolding telemetry_message
telemetry_message-TelemetryFits r h = ground arith

-- Every reading is encoded in a buffer of the generated size, into at least one byte and no more than
-- the buffer holds, and a host that decodes the bytes gets the reading: its sequence, uptime and
-- status, each presence flag, and each measurement whose flag is set.
pub encode_telemetry-host_reading :
    (pb : Nanopb)
    → IsNanopb pb
    → (r : SensorReading) → ReadingFits r
    → let bytes = encode_telemetry pb r pb.telemetry_size in
      (0 < length bytes)
      × (length bytes ≤ pb.telemetry_size)
      × (host_reading pb bytes ≡ some (visible r))
unfolding encode_telemetry
encode_telemetry-host_reading pb law r h =
    let fits : TelemetryFits (telemetry_message r) = telemetry_message-TelemetryFits r h in
    let (bytes, e, pos, small, reads) =
      law.telemetry_encodes (telemetry_message r) fits (unfold telemetry_message in omega arith) in
    rw (e, reads) (pos, small, reading_of-telemetry_message r)
