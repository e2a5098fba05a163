-- ===== src/Peer/Loop.antt =====
-- One pass of the loop in `main` of peer-node/src/main.cpp, with all that the kernel, the drivers and
-- the sensor thread do in it as an input.
pub mod Cadence
pub mod Readings
pub mod Backoff
pub mod Outstanding
mod Tests
use climate_node.Common.{
  ℕ, ◌+◌, ◌%◌, ◌≤◌, ◌≡◌, ◌⊎◌, ◌↔◌, Bool, true, false, ◌&&◌, ◌||◌, List, [], ◌∷◌, ◌++◌, map, Option,
  none, some, arith, leb, if◌then◌else◌,
}
use climate_node.Zephyr.{Rc, success, is_success}
use climate_node.AppChannels.{SensorReading, SensorReadingStatus, reading_error}
use climate_node.CanLink.{
  HeartbeatState, running, sensor_error, heartbeat_period_ms, relay_msg_telemetry,
}
use climate_node.Commands.{Node, Dedupe}
use climate_node.Protocol.{Nanopb, IsNanopb, encode_telemetry}
use climate_node.Protocol.Telemetry.{
  ReadingFits, visible, host_reading, encode_telemetry-host_reading,
}
use climate_node.Peer.{
  LinkState, note_link, CanState, bus_transmittable, send_message, send_telemetry, BeatState,
  BeatFrame, BeatInput, beats_end, send_heartbeat, handle_incoming,
}

-- What `isotp_recv` returns: a payload, or a timeout or error, which has no effect but a log line.
pub data Received : Type 0 where
  nothing : Received
  payload : List ℕ → Received

pub record PassInput : Type 0 where
  -- The results of the beats that the interrupt ended since the last pass.
  pub ended_before : List Rc
  pub now : ℕ  -- the uptime at the top of the pass
  -- On a beat: the controller's state, and what happens while the beat is sent.
  pub beat_can_state : Option CanState
  pub beat_input : BeatInput
  -- Otherwise: what was received, and what sending its answer returns.
  pub received : Received
  pub answer_rc : Rc
  -- What the sensor thread published until the semaphore is taken, and from then until the channel is
  -- read, each oldest first; then whether the channel can be read, the controller's state, the uptime
  -- of the test, what sending returns, and the uptime of `note_link`.
  pub published : List SensorReading
  pub published_late : List SensorReading
  pub can_read : Bool
  pub can_state : Option CanState
  pub test_now : ℕ
  pub telemetry_rc : Rc
  pub telemetry_noted : ℕ

pub data Output : Type 0 where
  beat : BeatFrame → Output
  isotp : List ℕ → Output

abbrev pub state_for : SensorReadingStatus → HeartbeatState
state_for reading_error = sensor_error
state_for _ = running

-- The last of some readings, or the one before them.
abbrev pub newest : SensorReading → List SensorReading → SensorReading
newest r [] = r
newest r (q ∷ qs) = newest q qs

abbrev pub some_reading : List SensorReading → Bool
some_reading [] = false
some_reading (r ∷ rs) = true

-- How `zbus_chan_read` answers once the late ones are published too.
abbrev pub channel_read : PassInput → SensorReading → Option SensorReading
channel_read i value = if i.can_read then some (newest value i.published_late) else none

module _ (n : Node) (pb : Nanopb) where
  pub record PeerState : Type 0 where
    pub link : LinkState
    pub beats : BeatState
    pub next_beat : ℕ
    pub telemetry : SensorReading  -- on the channel
    pub telemetry_pending : Bool  -- the semaphore's count, 0 or 1
    pub dedupe : Dedupe
    pub bus : n.Bus

  -- Each `zbus_chan_pub` stores its reading, and the listener gives the semaphore, whose limit is 1.
  abbrev pub on_telemetry : List SensorReading → PeerState → PeerState
  on_telemetry rs s = record s {
    telemetry = newest s.telemetry rs;
    telemetry_pending = s.telemetry_pending || some_reading rs;
  }

  -- What the reading says of the sensor, for the next heartbeat.
  abbrev pub note_reading : SensorReading → BeatState → BeatState
  note_reading r b = record b {
    hb_state = record b.hb_state { state = state_for r.status; sequence_low = r.sequence % 256 };
  }

  abbrev pub may_send : PassInput → LinkState → Bool
  may_send i l = bus_transmittable i.can_state && (l.link_up || leb l.tx_retry_at i.test_now)

  unfoldable pub forward_reading : PassInput → SensorReading → PeerState → List (List ℕ) × PeerState
  forward_reading i r s =
      let s' = record s { beats = note_reading r s.beats } in
      if may_send i s.link
      then (let (rc, frames) = send_telemetry pb r i.telemetry_rc in
          (frames, record s' { link = note_link (is_success rc) i.telemetry_noted s.link }))
      else ([], s')

  unfoldable pub take_reading :
      PassInput → Option SensorReading → PeerState → List (List ℕ) × PeerState
  take_reading i none s = ([], s)
  take_reading i (some r) s = forward_reading i r s

  unfoldable pub receive : PassInput → Received → PeerState → List (List ℕ) × PeerState
  receive i nothing s = ([], s)
  receive i (payload buf) s =
      let (frames, d, b) = handle_incoming n pb buf i.answer_rc s.dedupe s.bus in
      (frames, record s { dedupe = d; bus = b })

  unfoldable pub beat_pass : PassInput → PeerState → List Output × PeerState
  beat_pass i s =
      let s' = record (on_telemetry i.published_late s) {
        next_beat = s.next_beat + heartbeat_period_ms;
      } in
      if bus_transmittable i.beat_can_state
      then (let (frame, b, l) = send_heartbeat i.beat_input s.beats s.link in
          (beat frame ∷ [], record s' { beats = b; link = l }))
      else ([], record s' { link = note_link false i.beat_input.noted s.link })

  unfoldable pub wait_pass : PassInput → PeerState → List Output × PeerState
  wait_pass i s =
      let (answers, s') = receive i i.received s in
      if s.telemetry_pending
      then (let (frames, s'') =
            take_reading i (channel_read i s'.telemetry)
              (on_telemetry i.published_late (record s' { telemetry_pending = false })) in
          (map isotp (answers ++ frames), s''))
      else (map isotp answers, on_telemetry i.published_late s')

  -- What the interrupt and the sensor thread do before the pass looks at it.
  abbrev pub interrupted : PassInput → PeerState → PeerState
  interrupted i s = record (on_telemetry i.published s) { beats = beats_end i.ended_before s.beats }

  unfoldable pub pass : PassInput → PeerState → List Output × PeerState
  pass i s =
      let s' = interrupted i s in if leb s.next_beat i.now then beat_pass i s' else wait_pass i s'

  pub forward_reading_lem :
      IsNanopb pb
      → pb.telemetry_size ≤ pb.ack_size
      → (i : PassInput) (r : SensorReading) (s : PeerState) → ReadingFits r
      → let (frames, s') = forward_reading i r s in
        ((s'.beats.hb_state.state ≡ sensor_error) ↔ (r.status ≡ reading_error))
        × (s'.beats.hb_state.sequence_low ≡ r.sequence % 256)
        × (((may_send i s.link ≡ true)
              × (frames ≡ (relay_msg_telemetry ∷ encode_telemetry pb r pb.telemetry_size) ∷ [])
              × (host_reading pb (encode_telemetry pb r pb.telemetry_size) ≡ some (visible r))
              × ((s'.link.link_up ≡ true) ↔ (i.telemetry_rc ≡ success)))
            ⊎ ((may_send i s.link ≡ false) × (frames ≡ []) × (s'.link ≡ s.link)))
  unfolding forward_reading send_telemetry send_message note_link
  forward_reading_lem law fits i r s h =
      let sent = encode_telemetry-host_reading pb law r h in
      (ground arith, ground arith, ground (arith, sent))
