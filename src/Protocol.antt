-- ===== src/Protocol.antt =====
-- shared/protocol.h and shared/protocol.cpp: between the firmware's types and the messages of
-- proto/node.proto. The generated structures are records; nanopb itself is a parameter.
pub mod Telemetry
pub mod Acks
pub mod Plain
mod Tests
use climate_node.Common.{
  ℕ, ◌≤◌, ◌<◌, ◌^◌, ◌∷◌, ◌≡◌, Bool, true, false, Option, none, some, List, [], if◌then◌else◌,
  length,
}
use climate_node.Common.Decimal.{All, bounded}
use climate_node.AppChannels.{
  SensorReading, SensorReadingStatus, reading_ok, reading_warming_up, reading_error,
}
use climate_node.Commands.{AckStatus, unspecified, DeviceInfo, no_info, Command, detail_size}

abbrev pub schema_version : ℕ
schema_version = 1

pub data WireStatus : Type 0 where
  status_unspecified status_ok status_warming_up status_error : WireStatus

-- `node_Telemetry`
pub record TelemetryMessage : Type 0 where
  pub schema_version : ℕ
  pub sequence : ℕ
  pub uptime_ms : ℕ
  pub has_co2_ppm : Bool
  pub co2_ppm : ℕ
  pub has_temperature_c : Bool
  pub temperature_c : ℕ
  pub has_humidity_rh : Bool
  pub humidity_rh : ℕ
  pub sensor_status : WireStatus
  pub has_pressure_pa : Bool
  pub pressure_pa : ℕ

-- `node_Ack`
pub record AckMessage : Type 0 where
  pub schema_version : ℕ
  pub sequence : ℕ
  pub status : AckStatus
  pub detail : List ℕ
  pub has_device_info : Bool
  pub device_info : DeviceInfo

-- `node_Command_init_zero`
abbrev pub zero_command : Command
zero_command = record { schema_version = 0; sequence = 0; which_payload = 0; interval_ms = 0 }

-- nanopb and the sizes that it generates. `pb_encode_…` writes into a buffer of the given size and
-- gives the bytes written, or fails; `pb_decode_command` gives a message or fails. The two
-- `host_decode_…` are the decoders of the host that reads the bytes.
pub record Nanopb : Type 0 where
  pub telemetry_size : ℕ
  pub ack_size : ℕ
  pub command_size : ℕ
  pub pb_encode_telemetry : TelemetryMessage → ℕ → Option (List ℕ)
  pub pb_encode_ack : AckMessage → ℕ → Option (List ℕ)
  pub pb_decode_command : List ℕ → Option Command
  pub host_decode_telemetry : List ℕ → Option TelemetryMessage
  pub host_decode_ack : List ℕ → Option AckMessage

-- ASCII with no NUL, as every text of this firmware is.
abbrev pub IsAscii : ℕ → Type 0
IsAscii c = (0 < c) × (c < 128)

abbrev pub IsText : List ℕ → Type 0
IsText = All IsAscii

-- Messages as the generated structures hold them: numbers within 32 bits, texts within the
-- `max_size` of proto/node.options, and zero in what is marked absent.
abbrev pub TelemetryFits : TelemetryMessage → Type 0
TelemetryFits m =
    (m.sequence < 2 ^ 32)
    × (m.uptime_ms < 2 ^ 32)
    × (m.co2_ppm < 2 ^ 32)
    × (m.temperature_c < 2 ^ 32)
    × (m.humidity_rh < 2 ^ 32)
    × (m.pressure_pa < 2 ^ 32)
    × (m.has_co2_ppm ≡ false → m.co2_ppm ≡ 0)
    × (m.has_temperature_c ≡ false → m.temperature_c ≡ 0)
    × (m.has_humidity_rh ≡ false → m.humidity_rh ≡ 0)
    × (m.has_pressure_pa ≡ false → m.pressure_pa ≡ 0)

abbrev pub InfoFits : DeviceInfo → Type 0
InfoFits i =
    (length i.firmware_version < 16)
    × (length i.board < 32)
    × (length i.client_id < 24)
    × IsText i.firmware_version
    × IsText i.board
    × IsText i.client_id

abbrev pub AckFits : AckMessage → Type 0
AckFits a =
    (a.sequence < 2 ^ 32)
    × (length a.detail < detail_size)
    × IsText a.detail
    × InfoFits a.device_info
    × (a.has_device_info ≡ false → a.device_info ≡ no_info)

-- What nanopb and protobuf document of such a message with a schema version: it is encoded in a
-- buffer of the generated size, in at least a byte and no more than the buffer holds, and a host
-- reads it back.
pub record IsNanopb (pb : Nanopb) : Type 0 where
  pub telemetry_encodes :
      (m : TelemetryMessage)
      → TelemetryFits m
      → 0 < m.schema_version
      → (bytes : List ℕ) × (pb.pb_encode_telemetry m pb.telemetry_size ≡ some bytes)
        × (0 < length bytes)
        × (length bytes ≤ pb.telemetry_size)
        × (pb.host_decode_telemetry bytes ≡ some m)
  pub ack_encodes :
      (m : AckMessage)
      → AckFits m
      → 0 < m.schema_version
      → (bytes : List ℕ) × (pb.pb_encode_ack m pb.ack_size ≡ some bytes)
        × (0 < length bytes)
        × (length bytes ≤ pb.ack_size)
        × (pb.host_decode_ack bytes ≡ some m)

wire_status : SensorReadingStatus → WireStatus
wire_status reading_ok = status_ok
wire_status reading_warming_up = status_warming_up
wire_status reading_error = status_error

-- The message that `encode_telemetry` builds, starting from `node_Telemetry_init_zero`.
unfoldable pub telemetry_message : SensorReading → TelemetryMessage
unfolding wire_status
telemetry_message r = record {
  schema_version = schema_version;
  sequence = r.sequence;
  uptime_ms = r.uptime_ms;
  has_co2_ppm = r.has_co2_ppm;
  co2_ppm = if r.has_co2_ppm then r.co2_ppm else 0;
  has_temperature_c = r.has_temperature_c;
  temperature_c = if r.has_temperature_c then r.temperature_c else 0;
  has_humidity_rh = r.has_humidity_rh;
  humidity_rh = if r.has_humidity_rh then r.humidity_rh else 0;
  sensor_status = wire_status r.status;
  has_pressure_pa = r.has_pressure_pa;
  pressure_pa = if r.has_pressure_pa then r.pressure_pa else 0;
}

-- The number of bytes written, and the bytes: a failure returns 0.
abbrev pub written : Option (List ℕ) → List ℕ
written none = []
written (some bytes) = bytes

abbrev pub detail_of : Option (List ℕ) → List ℕ
detail_of none = []
detail_of (some detail) = bounded detail_size detail

abbrev pub has_info_of : Option DeviceInfo → Bool
has_info_of none = false
has_info_of (some info) = true

abbrev pub info_of : Option DeviceInfo → DeviceInfo
info_of none = no_info
info_of (some info) = info

-- The message that `encode_ack` builds; `none` is a null pointer.
unfoldable pub ack_message : ℕ → AckStatus → Option (List ℕ) → Option DeviceInfo → AckMessage
ack_message seq status detail info = record {
  schema_version = schema_version;
  sequence = seq;
  status = status;
  detail = detail_of detail;
  has_device_info = has_info_of info;
  device_info = info_of info;
}

module _ (pb : Nanopb) where
  unfoldable pub encode_telemetry : SensorReading → ℕ → List ℕ
  encode_telemetry reading out_len =
      written (pb.pb_encode_telemetry (telemetry_message reading) out_len)

  unfoldable pub encode_ack : ℕ → AckStatus → Option (List ℕ) → Option DeviceInfo → ℕ → List ℕ
  encode_ack seq status detail info out_len =
      written (pb.pb_encode_ack (ack_message seq status detail info) out_len)

  -- The returned flag and `*out`.
  decoded : Option Command → Bool × Command
  decoded none = (false, zero_command)
  decoded (some cmd) = (true, cmd)

  unfoldable pub decode_command : List ℕ → Bool → Bool × Command
  unfolding decoded
  decode_command buf oversized =
      if oversized then (false, zero_command) else decoded (pb.pb_decode_command buf)
