-- ===== src/Sensor.antt =====
-- The sensor threads, gateway/src/sensor.cpp and peer-node/src/sensor.cpp. Their loop is the same;
-- what they read differs (Scd40, Bme280). What the clock, the bus and the driver do is an input.
pub mod Scd40
pub mod Bme280
pub mod Wait
pub mod Cycle
pub mod Sample
mod Tests
use climate_node.Common.{ℕ, ◌+◌, Bool, true, false, List, [], ◌∷◌, leb, if◌then◌else◌}
use climate_node.AppChannels.{SensorCmd, SensorCmdKind, set_interval, trigger}

-- `struct sensor_value` of Zephyr: two int32_t, as their 32-bit patterns.
pub record SensorValue : Type 0 where
  pub val1 : ℕ
  pub val2 : ℕ

-- What `zbus_sub_wait_msg` returns with: a timeout, a message of another channel, or a command.
pub data Woken : Type 0 where
  timed_out elsewhere : Woken
  commanded : SensorCmd → Woken

-- One turn of the wait loop: the uptime at its top, and what ends the wait in it.
pub record Turn : Type 0 where
  pub now : ℕ
  pub woken : Woken

-- How a turn goes on: whether another turn follows, and the period from then on.
unfoldable pub on_command : SensorCmdKind → ℕ → ℕ → Bool × ℕ
on_command trigger interval_ms period_ms = (false, period_ms)
on_command set_interval interval_ms period_ms = (true, interval_ms)

unfoldable pub on_woken : Woken → ℕ → Bool × ℕ
on_woken timed_out period_ms = (false, period_ms)
on_woken elsewhere period_ms = (true, period_ms)
on_woken (commanded cmd) period_ms = on_command cmd.kind cmd.interval_ms period_ms

-- The wait is over exactly if the first component is true; the turns may run out before.
unfoldable pub wait_out : ℕ → ℕ → List Turn → Bool × ℕ
wait_out last_sample period_ms [] = (false, period_ms)
wait_out last_sample period_ms (t ∷ ts) =
    let (again, period) = on_woken t.woken period_ms in
    let rest = wait_out last_sample period ts in
    if leb (last_sample + period_ms) t.now
    then (true, period_ms)
    else if again
    then rest
    else (true, period)
