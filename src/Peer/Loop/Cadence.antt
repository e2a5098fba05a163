-- ===== src/Peer/Loop/Cadence.antt =====
-- The pace of the peer's heartbeat over many passes of its loop.
use climate_node.Common.{
  ℕ, ◌+◌, ◌*◌, ◌≤◌, ◌<◌, ◌≡◌, refl, Bool, false, List, [], ◌∷◌, none, some, arith, leb,
  if◌then◌else◌, Option,
}
use climate_node.AppChannels.{SensorReading}
use climate_node.CanLink.{heartbeat_period_ms}
use climate_node.Commands.{Node}
use climate_node.Protocol.{Nanopb}
use climate_node.Peer.Loop.{
  PassInput, Received, nothing, payload, PeerState, forward_reading, take_reading, receive,
  on_telemetry, channel_read, beat_pass, wait_pass, interrupted, pass,
}

abbrev pub Ascending : ℕ → List PassInput → Type 0
Ascending t [] = Unit {0}
Ascending t (i ∷ is) = (t ≤ i.now) × Ascending i.now is

abbrev pub last_now : ℕ → List PassInput → ℕ
last_now t [] = t
last_now t (i ∷ is) = last_now i.now is

module _ (n : Node) (pb : Nanopb) where
  unfoldable pub run : List PassInput → PeerState n pb → PeerState n pb
  run [] s = s
  run (i ∷ is) s = run is (pass n pb i s).1

  abbrev pub is_due : PassInput → PeerState n pb → Bool
  is_due i s = leb s.next_beat i.now

  -- How many of the passes are heartbeats.
  pub beats : List PassInput → PeerState n pb → ℕ
  beats [] s = 0
  beats (i ∷ is) s = let rest = beats is (pass n pb i s).1 in if is_due i s then rest + 1 else rest

  take_reading-next_beat :
      (i : PassInput) (r : Option SensorReading) (s : PeerState n pb)
      → (take_reading n pb i r s).1.next_beat ≡ s.next_beat
  unfolding take_reading forward_reading
  take_reading-next_beat i none s = refl
  take_reading-next_beat i (some r) s = ground arith

  receive-next_beat :
      (i : PassInput) (r : Received) (s : PeerState n pb)
      → (receive n pb i r s).1.next_beat ≡ s.next_beat
  unfolding receive
  receive-next_beat i nothing s = refl
  receive-next_beat i (payload buf) s = refl

  next_beat-wait_pass :
      (i : PassInput) (s : PeerState n pb) → (wait_pass n pb i s).1.next_beat ≡ s.next_beat
  unfolding wait_pass
  next_beat-wait_pass i s =
      let waited = (receive n pb i i.received s).1 in
      ground (
        arith,
        receive-next_beat i i.received s,
        take_reading-next_beat i (channel_read i waited.telemetry)
            (on_telemetry n pb i.published_late (record waited { telemetry_pending = false })),
      )

  next_beat-beat_pass :
      (i : PassInput) (s : PeerState n pb)
      → (beat_pass n pb i s).1.next_beat ≡ s.next_beat + heartbeat_period_ms
  unfolding beat_pass
  next_beat-beat_pass i s = ground arith

  pub next_beat-pass :
      (i : PassInput) (s : PeerState n pb)
      → (pass n pb i s).1.next_beat
        ≡ (if is_due i s then s.next_beat + heartbeat_period_ms else s.next_beat)
  unfolding pass
  next_beat-pass i s = ground (
    arith,
    next_beat-wait_pass i (interrupted n pb i s),
    next_beat-beat_pass i (interrupted n pb i s),
  )

  next_beat-run :
      (is : List PassInput) (s : PeerState n pb)
      → (run is s).next_beat ≡ s.next_beat + heartbeat_period_ms * beats is s
  unfolding run beats
  next_beat-run [] s = omega arith
  next_beat-run (i ∷ is) s = ground (arith, next_beat-pass i s, next_beat-run is (pass n pb i s).1)

  next_beat-le :
      (is : List PassInput) (s : PeerState n pb) (t : ℕ)
      → Ascending t is
      → s.next_beat ≤ t + heartbeat_period_ms
      → (run is s).next_beat ≤ last_now t is + heartbeat_period_ms
  unfolding run
  next_beat-le [] s t up h = h
  next_beat-le (i ∷ is) s t up h =
      next_beat-le is (pass n pb i s).1 i.now up.1 (ground (arith, next_beat-pass i s))

  -- Over any passes of the loop, with a clock that does not run backwards and whatever the bus, the
  -- gateway and the sensor do: the next beat is due a period times the number of beats after the
  -- first one was. So when a later pass finds no beat due, at the time `now`, the beats so far are
  -- exactly the periods begun since the first was due, and the pace does not drift.
  pub beats-run :
      (is : List PassInput) (i : PassInput) (s : PeerState n pb)
      → Ascending s.next_beat is
      → last_now s.next_beat is ≤ i.now
      → is_due i (run is s) ≡ false
      → let k = beats is s in
        ((run is s).next_beat ≡ s.next_beat + heartbeat_period_ms * k)
        × (i.now < s.next_beat + heartbeat_period_ms * k)
        × (s.next_beat + heartbeat_period_ms * k ≤ i.now + heartbeat_period_ms)
  beats-run is i s up late wait =
      let next = next_beat-run is s in
      let bound = next_beat-le is s s.next_beat up (omega arith) in
      (next, ground (arith, next), ground (arith, next, bound))
