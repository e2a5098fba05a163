-- ===== src/Peer/Loop/Outstanding.antt =====
-- What a link that is up says of the beats, over many passes of the peer's loop.
use climate_node.Common.{
  ℕ, ◌+◌, ◌≤◌, ◌≡◌, ◌≢◌, refl, Bool, ◌^◌, ◌/◌, ◌%◌, true, false, List, [], ◌∷◌, Option, none, some,
  arith, if◌then◌else◌, length, if_both,
}
use climate_node.Common.Decimal.{All}
use climate_node.Zephyr.{Rc, success, is_success}
use climate_node.AppChannels.{SensorReading}
use climate_node.Commands.{Node}
use climate_node.Protocol.{Nanopb}
use climate_node.Peer.{
  LinkState, note_link, bus_transmittable, BeatState, BeatInput, send_heartbeat, send_message,
  send_telemetry, beats_end,
}
use climate_node.Peer.Link.{beats_end_lem, send_heartbeat_lem}
use climate_node.Peer.Loop.{
  PassInput, Received, nothing, payload, PeerState, Output, forward_reading, take_reading, receive,
  on_telemetry, channel_read, beat_pass, wait_pass, interrupted, pass, may_send, note_reading,
}
use climate_node.Peer.Loop.Cadence.{run, is_due}

-- If the link is up, at most one beat is outstanding.
abbrev pub OneOutstanding : LinkState → BeatState → Type 0
OneOutstanding l b = l.link_up ≡ true → b.beats_queued ≤ b.beats_completed + 1

beats_end-OneOutstanding :
    (es : List Rc) (b : BeatState) (l : LinkState)
    → OneOutstanding l b
    → OneOutstanding l (beats_end es b)
beats_end-OneOutstanding es b l h = rw (beats_end_lem es b) (λ up. omega (arith, h up))

-- The counts after a beat, whatever its verdict.
send_heartbeat-counts :
    (i : BeatInput) (b : BeatState) (l : LinkState)
    → let (_, b', _) = send_heartbeat i b l in
      (b'.beats_queued ≡ (if is_success i.can_send_rc then b.beats_queued + 1 else b.beats_queued))
      × (b'.beats_completed ≡ b.beats_completed + length i.ended + length i.ended_late)
unfolding send_heartbeat
send_heartbeat-counts i b l =
    let hb = record b.hb_state { uptime_s = i.filled / 1000 % 2 ^ 32 } in
    let queued = if is_success i.can_send_rc then b.beats_queued + 1 else b.beats_queued in
    let sent : BeatState = record b { hb_state = hb; beats_queued = queued } in
    rw (beats_end_lem i.ended_late (beats_end i.ended sent), beats_end_lem i.ended sent)
      (refl, refl)

send_heartbeat-OneOutstanding :
    (i : BeatInput) (b : BeatState) (l : LinkState)
    → let (_, b', l') = send_heartbeat i b l in OneOutstanding l' b'
send_heartbeat-OneOutstanding i b l up =
    let counts = send_heartbeat-counts i b l in
    let verdict = (send_heartbeat_lem i b l).0.0 up in ground (arith, counts, verdict)

note_link-OneOutstanding :
    (ok : Bool) (noted : ℕ) (l : LinkState) (b : BeatState)
    → ok ≢ true
    → OneOutstanding (note_link ok noted l) b
unfolding note_link
note_link-OneOutstanding true noted l b fails up = absurd (fails refl)
note_link-OneOutstanding false noted l b fails up = absurd (ground (arith, up))

module _ (n : Node) (pb : Nanopb) where
  abbrev pub Good : PeerState n pb → Type 0
  Good s = OneOutstanding s.link s.beats

  -- Sending a reading fails unless the transfer succeeds.
  send_telemetry-fails :
      (r : SensorReading) (rc : Rc) → rc ≢ success → is_success (send_telemetry pb r rc).0 ≢ true
  unfolding send_telemetry send_message
  send_telemetry-fails r rc fails done = ground (arith, fails, done)

  forward_reading-Good :
      (i : PassInput) (r : SensorReading) (s : PeerState n pb)
      → i.telemetry_rc ≢ success
      → Good s
      → Good (forward_reading n pb i r s).1
  unfolding forward_reading
  forward_reading-Good i r s fails good =
      if_both (λ (x : List (List ℕ) × PeerState n pb). Good x.1) (may_send n pb i s.link)
        (note_link-OneOutstanding _ i.telemetry_noted s.link (note_reading n pb r s.beats)
          (send_telemetry-fails r i.telemetry_rc fails))
        good

  take_reading-Good :
      (i : PassInput) (r : Option SensorReading) (s : PeerState n pb)
      → i.telemetry_rc ≢ success
      → Good s
      → Good (take_reading n pb i r s).1
  unfolding take_reading
  take_reading-Good i none s fails good = good
  take_reading-Good i (some r) s fails good = forward_reading-Good i r s fails good

  receive-Good :
      (i : PassInput) (r : Received) (s : PeerState n pb) → Good s → Good (receive n pb i r s).1
  unfolding receive
  receive-Good i nothing s good = good
  receive-Good i (payload buf) s good = good

  wait_pass-Good :
      (i : PassInput) (s : PeerState n pb)
      → i.telemetry_rc ≢ success
      → Good s
      → Good (wait_pass n pb i s).1
  unfolding wait_pass
  wait_pass-Good i s fails good =
      let received : PeerState n pb = (receive n pb i i.received s).1 in
      let still = receive-Good i i.received s good in
      if_both (λ (x : List Output × PeerState n pb). Good x.1) s.telemetry_pending
        (take_reading-Good i (channel_read i received.telemetry)
          (on_telemetry n pb i.published_late (record received { telemetry_pending = false })) fails
          still)
        still

  beat_pass-Good : (i : PassInput) (s : PeerState n pb) → Good (beat_pass n pb i s).1
  unfolding beat_pass
  beat_pass-Good i s =
      if_both (λ (x : List Output × PeerState n pb). Good x.1) (bus_transmittable i.beat_can_state)
        (send_heartbeat-OneOutstanding i.beat_input s.beats s.link)
        (note_link-OneOutstanding false i.beat_input.noted s.link s.beats (λ e. ground (arith, e)))

  pass-Good :
      (i : PassInput) (s : PeerState n pb)
      → i.telemetry_rc ≢ success
      → Good s
      → Good (pass n pb i s).1
  unfolding pass
  pass-Good i s fails good =
      let ended = beats_end-OneOutstanding i.ended_before s.beats s.link good in
      if_both (λ (x : List Output × PeerState n pb). Good x.1) (is_due n pb i s)
        (beat_pass-Good i (interrupted n pb i s))
        (wait_pass-Good i (interrupted n pb i s) fails ended)

  -- Over any passes of the loop in which no transfer of a reading succeeds, whatever else happens: if
  -- the link is up after them, and no more than one beat was outstanding if it was up before them,
  -- then at most one of all the beats accepted so far has not ended.
  pub run-OneOutstanding :
      (is : List PassInput) (s : PeerState n pb)
      → All (λ (i : PassInput). i.telemetry_rc ≢ success) is
      → Good s
      → Good (run n pb is s)
  unfolding run
  run-OneOutstanding [] s fails good = good
  run-OneOutstanding (i ∷ is) s fails good =
      run-OneOutstanding is (pass n pb i s).1 fails.1 (pass-Good i s fails.0 good)
