-- ===== src/Protocol/Plain.antt =====
-- A plain encoding, one list element for a field, that meets what `IsNanopb` asks: the theorems
-- about nanopb are applied to it. It is no model of protobuf.
use climate_node.Common.{
  ℕ, zero, suc, ◌≤◌, ◌≡◌, refl, ap, Bool, true, false, Option, none, some, List, [], ◌∷◌, ◌++◌,
  arith, length, length-append, take, drop,
}
use climate_node.Commands.{
  AckStatus, unspecified, ack_ok, invalid_argument, unsupported, failed, malformed, DeviceInfo,
  Command,
}
use climate_node.Protocol.{
  WireStatus, status_unspecified, status_ok, status_warming_up, status_error, TelemetryMessage,
  AckMessage, AckFits, Nanopb, IsNanopb,
}

abbrev flag : Bool → ℕ
flag false = 0
flag true = 1

abbrev unflag : ℕ → Bool
unflag zero = false
unflag (suc n) = true

abbrev wire_number : WireStatus → ℕ
wire_number status_unspecified = 0
wire_number status_ok = 1
wire_number status_warming_up = 2
wire_number status_error = 3

abbrev wire_of : ℕ → WireStatus
wire_of zero = status_unspecified
wire_of (suc zero) = status_ok
wire_of (suc (suc zero)) = status_warming_up
wire_of (suc (suc (suc n))) = status_error

abbrev ack_number : AckStatus → ℕ
ack_number unspecified = 0
ack_number ack_ok = 1
ack_number invalid_argument = 2
ack_number unsupported = 3
ack_number failed = 4
ack_number malformed = 5

abbrev ack_of : ℕ → AckStatus
ack_of zero = unspecified
ack_of (suc zero) = ack_ok
ack_of (suc (suc zero)) = invalid_argument
ack_of (suc (suc (suc zero))) = unsupported
ack_of (suc (suc (suc (suc zero)))) = failed
ack_of (suc (suc (suc (suc (suc n))))) = malformed

abbrev write_telemetry : TelemetryMessage → List ℕ
write_telemetry m =
    m.schema_version
    ∷ m.sequence
    ∷ m.uptime_ms
    ∷ flag m.has_co2_ppm
    ∷ m.co2_ppm
    ∷ flag m.has_temperature_c
    ∷ m.temperature_c
    ∷ flag m.has_humidity_rh
    ∷ m.humidity_rh
    ∷ wire_number m.sensor_status
    ∷ flag m.has_pressure_pa
    ∷ m.pressure_pa
    ∷ []

abbrev read_telemetry : List ℕ → Option TelemetryMessage
read_telemetry (v ∷ s ∷ u ∷ hc ∷ c ∷ ht ∷ t ∷ hh ∷ h ∷ st ∷ hp ∷ p ∷ []) = some (record {
  schema_version = v;
  sequence = s;
  uptime_ms = u;
  has_co2_ppm = unflag hc;
  co2_ppm = c;
  has_temperature_c = unflag ht;
  temperature_c = t;
  has_humidity_rh = unflag hh;
  humidity_rh = h;
  sensor_status = wire_of st;
  has_pressure_pa = unflag hp;
  pressure_pa = p;
})
read_telemetry _ = none

abbrev write_ack : AckMessage → List ℕ
write_ack a =
    a.schema_version
    ∷ a.sequence
    ∷ ack_number a.status
    ∷ flag a.has_device_info
    ∷ length a.detail
    ∷ length a.device_info.firmware_version
    ∷ length a.device_info.board
    ∷ (a.detail
        ++ (a.device_info.firmware_version ++ (a.device_info.board ++ a.device_info.client_id)))

abbrev read_ack : List ℕ → Option AckMessage
read_ack (v ∷ s ∷ st ∷ hi ∷ d ∷ f ∷ b ∷ text) = some (record {
  schema_version = v;
  sequence = s;
  status = ack_of st;
  detail = take d text;
  has_device_info = unflag hi;
  device_info = record {
    firmware_version = take f (drop d text);
    board = take b (drop f (drop d text));
    client_id = drop b (drop f (drop d text));
  };
})
read_ack _ = none

-- A command is its sequence, its tag and its interval.
abbrev read_command : List ℕ → Option Command
read_command (s ∷ tag ∷ ms ∷ []) =
    some (record { schema_version = 1; sequence = s; which_payload = tag; interval_ms = ms })
read_command _ = none

abbrev pub plain : Nanopb
plain = record {
  telemetry_size = 42;
  ack_size = 140;
  command_size = 20;
  pb_encode_telemetry = λ m size. some (write_telemetry m);
  pb_encode_ack = λ m size. some (write_ack m);
  pb_decode_command = read_command;
  host_decode_telemetry = read_telemetry;
  host_decode_ack = read_ack;
}

unflag-flag : (b : Bool) → unflag (flag b) ≡ b
unflag-flag false = refl
unflag-flag true = refl

wire_of-wire_number : (s : WireStatus) → wire_of (wire_number s) ≡ s
wire_of-wire_number s = ground arith

ack_of-ack_number : (s : AckStatus) → ack_of (ack_number s) ≡ s
ack_of-ack_number s = ground arith

take-append : (xs ys : List ℕ) → take (length xs) (xs ++ ys) ≡ xs
take-append [] ys = refl
take-append (x ∷ xs) ys = ap (◌∷◌ x) (take-append xs ys)

drop-append : (xs ys : List ℕ) → drop (length xs) (xs ++ ys) ≡ ys
drop-append [] ys = refl
drop-append (x ∷ xs) ys = drop-append xs ys

read-write_telemetry : (m : TelemetryMessage) → read_telemetry (write_telemetry m) ≡ some m
read-write_telemetry m = ground (
  arith,
  unflag-flag m.has_co2_ppm,
  unflag-flag m.has_temperature_c,
  unflag-flag m.has_humidity_rh,
  unflag-flag m.has_pressure_pa,
  wire_of-wire_number m.sensor_status,
)

read-write_ack : (m : AckMessage) → read_ack (write_ack m) ≡ some m
read-write_ack m =
    simp (take-append, drop-append, unflag-flag m.has_device_info, ack_of-ack_number m.status)

length-write_ack : (m : AckMessage) → AckFits m → length (write_ack m) ≤ 140
length-write_ack m h =
    let i : DeviceInfo = m.device_info in
    omega (
      arith,
      length-append m.detail (i.firmware_version ++ (i.board ++ i.client_id)),
      length-append i.firmware_version (i.board ++ i.client_id),
      length-append i.board i.client_id,
    )

pub plain-IsNanopb : IsNanopb plain
plain-IsNanopb = record {
  telemetry_encodes =
      λ m fits v. (write_telemetry m, refl, omega arith, omega arith, read-write_telemetry m);
  ack_encodes =
      λ m fits v. (write_ack m, refl, omega arith, length-write_ack m fits, read-write_ack m);
}
