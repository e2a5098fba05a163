-- ===== src/Sensor/Cycle.antt =====
-- The loop of `sensor_thread`: a reading is taken and published, then the period is waited out. The
-- result of publishing is only logged.
use climate_node.Common.{
  ℕ, ◌+◌, ◌%◌, ◌^◌, ◌<◌, ◌≡◌, refl, Bool, some, List, [], ◌∷◌, arith, if◌then◌else◌, ap, ◌∙◌,
}
use climate_node.AppChannels.{SensorReading, empty_reading, sample_period_default_ms}
use climate_node.Protocol.{Nanopb, IsNanopb, encode_telemetry}
use climate_node.Protocol.Telemetry.{
  ReadingFits, visible, host_reading, encode_telemetry-host_reading,
}
use climate_node.Sensor.{SensorValue, Turn, wait_out}
use climate_node.Sensor.Scd40.{Conversion, Scd40Sample, read_scd40}
use climate_node.Sensor.Bme280.{Bme280Sample, pressure_of, read_bme280}
use climate_node.Sensor.Wait.{InBounds, AllValidated, InBounds-wait_out}

pub record SensorState : Type 0 where
  pub sequence : ℕ  -- uint32_t
  pub period_ms : ℕ  -- uint32_t

abbrev pub sensor_at_boot : SensorState
sensor_at_boot = record { sequence = 0; period_ms = sample_period_default_ms }

-- A cycle sees the uptime for the reading, what the sensor answers, the uptime after publishing, and
-- the turns of the wait.
pub record CycleInput (X : Type 0) : Type 0 where
  pub uptime : ℕ
  pub sample : X
  pub last_sample : ℕ
  pub turns : List Turn

-- `reading` before the sensor is read.
abbrev pub fresh_reading : ℕ → ℕ → SensorReading
fresh_reading sequence uptime = record empty_reading {
  sequence = sequence;
  uptime_ms = uptime % 2 ^ 32;
}

abbrev next_state : ℕ → SensorState → SensorState
next_state period s = record { sequence = (s.sequence + 1) % 2 ^ 32; period_ms = period }

-- Numbered from `n` on, over 32 bits.
abbrev pub Numbered : ℕ → List SensorReading → Type 0
Numbered n [] = Unit {0}
Numbered n (r ∷ rs) = (r.sequence ≡ n % 2 ^ 32) × Numbered (n + 1) rs

abbrev pub Commanded : {X : Type 0} → List (CycleInput X) → Type 0
Commanded [] = Unit {0}
Commanded (i ∷ is) = AllValidated i.turns × Commanded is

module _ {X : Type 0} (read : X → SensorReading → SensorReading) where
  unfoldable pub sensor_cycle : CycleInput X → SensorState → SensorReading × Bool × SensorState
  sensor_cycle i s =
      let (over, period) = wait_out i.last_sample s.period_ms i.turns in
      (read i.sample (fresh_reading s.sequence i.uptime), over, next_state period s)

  -- The readings published, and the state after; a wait that is not over stops the run.
  unfoldable pub sensor_run : List (CycleInput X) → SensorState → List SensorReading × SensorState
  sensor_run [] s = ([], s)
  sensor_run (i ∷ is) s =
      let (r, over, s') = sensor_cycle i s in
      let (rs, s'') = sensor_run is s' in if over then (r ∷ rs, s'') else (r ∷ [], s')

  pub KeepsSequence : Type 0
  KeepsSequence = (x : X) (r : SensorReading) → (read x r).sequence ≡ r.sequence

  sensor_run_step :
      (i : CycleInput X) (is : List (CycleInput X)) (s : SensorState)
      → let (over, period) = wait_out i.last_sample s.period_ms i.turns in
        let r = read i.sample (fresh_reading s.sequence i.uptime) in
        let s' = next_state period s in
        let rest = sensor_run is s' in
        sensor_run (i ∷ is) s ≡ (if over then (r ∷ rest.0, rest.1) else (r ∷ [], s'))
  unfolding sensor_run sensor_cycle
  sensor_run_step i is s = refl

  sensor_run_none : (s : SensorState) → sensor_run [] s ≡ ([], s)
  unfolding sensor_run
  sensor_run_none s = refl

  Numbered-sensor_run :
      KeepsSequence
      → (is : List (CycleInput X)) (s : SensorState) (n : ℕ) → s.sequence ≡ n % 2 ^ 32
      → Numbered n (sensor_run is s).0
  unfolding KeepsSequence
  Numbered-sensor_run keeps [] s n h = ground (arith, sensor_run_none s)
  Numbered-sensor_run keeps (i ∷ is) s n h =
      let s' = next_state (wait_out i.last_sample s.period_ms i.turns).1 s in
      let kept = keeps i.sample (fresh_reading s.sequence i.uptime) in
      let rest = Numbered-sensor_run keeps is s' (n + 1) (omega (arith, h)) in
      ground (arith, sensor_run_step i is s, kept, rest)

  InBounds-sensor_run :
      (is : List (CycleInput X)) (s : SensorState)
      → Commanded is
      → InBounds s.period_ms
      → InBounds (sensor_run is s).1.period_ms
  InBounds-sensor_run [] s v b = ground (arith, sensor_run_none s)
  InBounds-sensor_run (i ∷ is) s v b =
      let s' = next_state (wait_out i.last_sample s.period_ms i.turns).1 s in
      let waited = InBounds-wait_out i.last_sample s.period_ms i.turns v.0 b in
      let rest = InBounds-sensor_run is s' v.1 waited in
      ground (arith, sensor_run_step i is s, waited, rest)

unfoldable pub gateway_sensor_run :
    Conversion
    → Bool
    → List (CycleInput Scd40Sample)
    → SensorState
    → List SensorReading × SensorState
gateway_sensor_run c device_ok = sensor_run (read_scd40 c device_ok)

unfoldable pub peer_sensor_run :
    Conversion
    → Bool
    → List (CycleInput Bme280Sample)
    → SensorState
    → List SensorReading × SensorState
peer_sensor_run c device_ok = sensor_run (read_bme280 c device_ok)

KeepsSequence-read_scd40 :
    (c : Conversion) (device_ok : Bool) → KeepsSequence (read_scd40 c device_ok)
unfolding KeepsSequence read_scd40
KeepsSequence-read_scd40 c device_ok x r = ground arith

KeepsSequence-read_bme280 :
    (c : Conversion) (device_ok : Bool) → KeepsSequence (read_bme280 c device_ok)
unfolding KeepsSequence read_bme280
KeepsSequence-read_bme280 c device_ok x r = ground arith

-- The gateway's sensor thread, from its start and whatever the sensor and the clock do: its readings
-- are numbered 0, 1, 2 and on, without a gap, over 32 bits; and if the commands it receives passed
-- the validator, its period is within the bounds.
pub gateway_sensor_run_lem :
    (c : Conversion) (device_ok : Bool) (is : List (CycleInput Scd40Sample))
    → Commanded is
    → let (rs, s) = gateway_sensor_run c device_ok is sensor_at_boot in
      Numbered 0 rs × InBounds s.period_ms
unfolding gateway_sensor_run
gateway_sensor_run_lem c device_ok is v =
    let read = read_scd40 c device_ok in
    let keeps = KeepsSequence-read_scd40 c device_ok in
    (
      Numbered-sensor_run read keeps is sensor_at_boot 0 refl,
      InBounds-sensor_run read is sensor_at_boot v (omega arith),
    )

-- The same of the peer's sensor thread.
pub peer_sensor_run_lem :
    (c : Conversion) (device_ok : Bool) (is : List (CycleInput Bme280Sample))
    → Commanded is
    → let (rs, s) = peer_sensor_run c device_ok is sensor_at_boot in
      Numbered 0 rs × InBounds s.period_ms
unfolding peer_sensor_run
peer_sensor_run_lem c device_ok is v =
    let read = read_bme280 c device_ok in
    let keeps = KeepsSequence-read_bme280 c device_ok in
    (
      Numbered-sensor_run read keeps is sensor_at_boot 0 refl,
      InBounds-sensor_run read is sensor_at_boot v (omega arith),
    )

-- The casts give 32-bit patterns.
pub record IsConversion (c : Conversion) : Type 0 where
  pub float_bound : (v : SensorValue) → c.to_float v < 2 ^ 32
  pub whole_bound : (v : SensorValue) → c.to_whole v < 2 ^ 32

pub scd40_fits :
    (c : Conversion)
    → IsConversion c
    → (device_ok : Bool) (x : Scd40Sample) (n t : ℕ) → n < 2 ^ 32
    → let r = read_scd40 c device_ok x (fresh_reading n t) in ReadingFits r × (visible r ≡ r)
unfolding read_scd40
scd40_fits c law device_ok x n t h =
    let co2 = law.whole_bound x.co2 in
    let temp = law.float_bound x.temp in
    let hum = law.float_bound x.hum in (ground (arith, co2, temp, hum), ground arith)

pressure_of-bound : (p : SensorValue) → pressure_of p < 2 ^ 32
unfolding pressure_of
pressure_of-bound p = omega arith

pub bme280_fits :
    (c : Conversion)
    → IsConversion c
    → (device_ok : Bool) (x : Bme280Sample) (n t : ℕ) → n < 2 ^ 32
    → let r = read_bme280 c device_ok x (fresh_reading n t) in ReadingFits r × (visible r ≡ r)
unfolding read_bme280
bme280_fits c law device_ok x n t h =
    let press = pressure_of-bound x.press in
    let temp = law.float_bound x.temp in
    let hum = law.float_bound x.hum in (ground (arith, press, temp, hum), ground arith)

-- What a sensor thread reads into a fresh reading reaches the host unchanged, field by field, when it
-- is encoded in a buffer of the generated size: on both nodes, whatever the sensor answers.
pub host_reading-read :
    (pb : Nanopb)
    → IsNanopb pb
    → (c : Conversion) → IsConversion c
    → (device_ok : Bool) (x : Scd40Sample) (y : Bme280Sample) (n t : ℕ) → n < 2 ^ 32
    → let own = read_scd40 c device_ok x (fresh_reading n t) in
      let peers = read_bme280 c device_ok y (fresh_reading n t) in
      (host_reading pb (encode_telemetry pb own pb.telemetry_size) ≡ some own)
      × (host_reading pb (encode_telemetry pb peers pb.telemetry_size) ≡ some peers)
host_reading-read pb law c conv device_ok x y n t h =
    let own = scd40_fits c conv device_ok x n t h in
    let peers = bme280_fits c conv device_ok y n t h in
    let own_read = (encode_telemetry-host_reading pb law _ own.0).2 in
    let peers_read = (encode_telemetry-host_reading pb law _ peers.0).2 in
    (own_read ∙ ap some own.1, peers_read ∙ ap some peers.1)
