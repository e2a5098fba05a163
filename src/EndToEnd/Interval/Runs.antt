-- ===== src/EndToEnd/Interval/Runs.antt =====
-- The runs of sensor_thread, gateway/src/sensor.cpp and peer-node/src/sensor.cpp, on the commands
-- that the node handles meanwhile.
use climate_node.Common.{◌≡◌, sym, ap, ◌∙◌, subst, Bool, List, [], ◌∷◌, ◌++◌}
use climate_node.Common.Decimal.{All}
use climate_node.AppChannels.{SensorCmd}
use climate_node.Commands.{Node, IsZbus, Dedupe}
use climate_node.Sensor.{Woken, timed_out, elsewhere, commanded, Turn}
use climate_node.Sensor.Wait.{InBounds, Validated, AllValidated}
use climate_node.Sensor.Cycle.{
  CycleInput, Commanded, Numbered, sensor_at_boot, gateway_sensor_run, gateway_sensor_run_lem,
  peer_sensor_run, peer_sensor_run_lem,
}
use climate_node.Sensor.Scd40.{Conversion, Scd40Sample}
use climate_node.Sensor.Bme280.{Bme280Sample}
use climate_node.EndToEnd.Interval.{InRange, Served, served_in_order}

abbrev message_of : Woken → List SensorCmd
message_of (commanded c) = c ∷ []
message_of _ = []

-- The messages that the turns of a wait come with, and those of all waits of a run.
abbrev pub received : List Turn → List SensorCmd
received [] = []
received (t ∷ ts) = message_of t.woken ++ received ts

abbrev pub received_in : {X : Type 0} → List (CycleInput X) → List SensorCmd
received_in [] = []
received_in (i ∷ is) = received i.turns ++ received_in is

All-left : (xs ys : List SensorCmd) → All InRange (xs ++ ys) → All InRange xs
All-left [] ys h = tt
All-left (x ∷ xs) ys h = (h.0, All-left xs ys h.1)

All-right : (xs ys : List SensorCmd) → All InRange (xs ++ ys) → All InRange ys
All-right [] ys h = h
All-right (x ∷ xs) ys h = All-right xs ys h.1

Validated-message_of : (w : Woken) → All InRange (message_of w) → Validated w
Validated-message_of timed_out h = tt
Validated-message_of elsewhere h = tt
Validated-message_of (commanded c) h = h.0

AllValidated-received : (ts : List Turn) → All InRange (received ts) → AllValidated ts
AllValidated-received [] h = tt
AllValidated-received (t ∷ ts) h = (
  Validated-message_of t.woken (All-left (message_of t.woken) (received ts) h),
  AllValidated-received ts (All-right (message_of t.woken) (received ts) h),
)

Commanded-received_in :
    {X : Type 0} (is : List (CycleInput X)) → All InRange (received_in is) → Commanded is
Commanded-received_in [] h = tt
Commanded-received_in (i ∷ is) h = (
  AllValidated-received i.turns (All-left (received i.turns) (received_in is) h),
  Commanded-received_in is (All-right (received i.turns) (received_in is) h),
)

-- The messages that the sensor thread takes passed the validator.
Commanded-Served :
    (n : Node)
    → IsZbus n
    → (d₀ : Dedupe) (b₀ : n.Bus) (d : Dedupe) (b : n.Bus) (asked taken : List SensorCmd)
      {X : Type 0} (is : List (CycleInput X))
    → n.pending b₀ ≡ []
    → Served n d₀ b₀ asked taken d b
    → received_in is ≡ taken
    → Commanded is
Commanded-Served n z d₀ b₀ d b asked taken is empty run same =
    let (order, valid) = served_in_order n z d₀ b₀ d b asked taken run in
    let all = subst (All InRange) (sym (order ∙ ap (λ q. q ++ asked) empty)) valid in
    let taken_valid = All-left taken (n.pending b) all in
    Commanded-received_in is (subst (All InRange) (sym same) taken_valid)

-- Let the gateway handle its commands while its sensor thread waits, interleaved in any way from an
-- empty queue, and let the waits of the thread receive what it has taken from the queue. Then,
-- whatever the commands ask for and whatever the sensor does, the thread's readings are numbered 0,
-- 1, 2 and on, without a gap, over 32 bits, and its period is within the bounds.
pub served_sensor_run :
    (n : Node)
    → IsZbus n
    → (d₀ : Dedupe) (b₀ : n.Bus) (d : Dedupe) (b : n.Bus) (asked taken : List SensorCmd)
      (c : Conversion) (device_ok : Bool) (is : List (CycleInput Scd40Sample))
    → n.pending b₀ ≡ []
    → Served n d₀ b₀ asked taken d b
    → received_in is ≡ taken
    → let (rs, s) = gateway_sensor_run c device_ok is sensor_at_boot in
      Numbered 0 rs × InBounds s.period_ms
served_sensor_run n z d₀ b₀ d b asked taken c device_ok is empty run same =
    gateway_sensor_run_lem c device_ok is
      (Commanded-Served n z d₀ b₀ d b asked taken is empty run same)

-- The same of the peer.
pub peer_served_sensor_run :
    (n : Node)
    → IsZbus n
    → (d₀ : Dedupe) (b₀ : n.Bus) (d : Dedupe) (b : n.Bus) (asked taken : List SensorCmd)
      (c : Conversion) (device_ok : Bool) (is : List (CycleInput Bme280Sample))
    → n.pending b₀ ≡ []
    → Served n d₀ b₀ asked taken d b
    → received_in is ≡ taken
    → let (rs, s) = peer_sensor_run c device_ok is sensor_at_boot in
      Numbered 0 rs × InBounds s.period_ms
peer_served_sensor_run n z d₀ b₀ d b asked taken c device_ok is empty run same =
    peer_sensor_run_lem c device_ok is
      (Commanded-Served n z d₀ b₀ d b asked taken is empty run same)
