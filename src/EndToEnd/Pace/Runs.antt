-- ===== src/EndToEnd/Pace/Runs.antt =====
-- The beats of many passes of the loop of peer-node/src/main.cpp, as they reach the receiving thread
-- of gateway/src/relay.cpp.
use climate_node.Common.{
  ℕ, ◌+◌, ◌≤◌, ◌<◌, ◌≡◌, refl, true, false, List, [], ◌∷◌, ◌++◌, map, arith, if◌then◌else◌, if_both,
  Bool-cases, inl, inr,
}
use climate_node.Common.Decimal.{All}
use climate_node.CanLink.{heartbeat_period_ms}
use climate_node.Commands.{Node}
use climate_node.Protocol.{Nanopb}
use climate_node.Peer.{bus_transmittable, send_heartbeat}
use climate_node.Peer.Loop.{
  PassInput, PeerState, Output, isotp, receive, on_telemetry, channel_read, take_reading, beat_pass,
  wait_pass, interrupted, pass,
}
use climate_node.Peer.Loop.Cadence.{run, is_due, next_beat-pass}
use climate_node.Relay.Threads.{RxInput, rx_run, rx_at_loop}
use climate_node.Relay.Threads.Receiving.{statuses}
use climate_node.EndToEnd.Presence.{on_bus, any_frame, beats_keep_online}
use climate_node.EndToEnd.Pace.{slack_ms, Trip, Arrival, beats_in, fed, Paced, NoGap-fed}

beats_in-isotp : (t : ℕ) (ps : List (List ℕ)) → beats_in t (map isotp ps) ≡ []
beats_in-isotp t [] = refl
beats_in-isotp t (p ∷ ps) = beats_in-isotp t ps

module _ (n : Node) (pb : Nanopb) where
  -- The beats of the peer, as they reach the gateway.
  abbrev pub arrivals : List Trip → PeerState n pb → List Arrival
  arrivals [] s = []
  arrivals (t ∷ ts) s =
      let (outputs, s') = pass n pb t.input s in beats_in t.arrives outputs ++ arrivals ts s'

  -- On the gateway's clock, which is `ahead` of the peer's: each beat that comes due finds a
  -- controller that can transmit, and reaches the gateway after it was sent and no later than the
  -- slack allows.
  abbrev pub Punctual : ℕ → List Trip → PeerState n pb → Type 0
  Punctual ahead [] s = Unit {0}
  Punctual ahead (t ∷ ts) s =
      (is_due n pb t.input s ≡ true
        → (bus_transmittable t.input.beat_can_state ≡ true)
          × (t.input.now + ahead ≤ t.arrives)
          × (t.arrives ≤ s.next_beat + ahead + slack_ms))
      × Punctual ahead ts (pass n pb t.input s).1

  beats_in-wait_pass :
      (t : ℕ) (i : PassInput) (s : PeerState n pb) → beats_in t (wait_pass n pb i s).0 ≡ []
  unfolding wait_pass
  beats_in-wait_pass t i s =
      let (answers, received) = receive n pb i i.received s in
      let frames =
        (take_reading n pb i (channel_read i received.telemetry)
          (on_telemetry n pb i.published_late (record received { telemetry_pending = false }))).0 in
      if_both (λ (x : List Output × PeerState n pb). beats_in t x.0 ≡ []) s.telemetry_pending
        (beats_in-isotp t (answers ++ frames)) (beats_in-isotp t answers)

  wait-beats_in :
      (t : ℕ) (i : PassInput) (s : PeerState n pb)
      → is_due n pb i s ≡ false
      → beats_in t (pass n pb i s).0 ≡ []
  unfolding pass
  wait-beats_in t i s wait = rw wait (beats_in-wait_pass t i (interrupted n pb i s))

  beat-beats_in :
      (t : ℕ) (i : PassInput) (s : PeerState n pb)
      → is_due n pb i s ≡ true
      → bus_transmittable i.beat_can_state ≡ true
      → beats_in t (pass n pb i s).0
        ≡ (t, on_bus (send_heartbeat i.beat_input (interrupted n pb i s).beats s.link).0) ∷ []
  unfolding pass beat_pass
  beat-beats_in t i s late can = rw (late, can) refl

  arrivals-Paced :
      (ahead : ℕ) (ts : List Trip) (s : PeerState n pb)
      → Punctual ahead ts s
      → Paced
          (s.next_beat + ahead)
          (arrivals ts s)
          ((run n pb (map (λ (t : Trip). t.input) ts) s).next_beat + ahead)
  unfolding run
  arrivals-Paced ahead [] s h = refl
  arrivals-Paced ahead (t ∷ ts) s h =
      let after : PeerState n pb = (pass n pb t.input s).1 in
      let stop = (run n pb (map (λ (t : Trip). t.input) ts) after).next_beat + ahead in
      let rest : Paced (after.next_beat + ahead) (arrivals ts after) stop =
        arrivals-Paced ahead ts after h.1 in
      let next = next_beat-pass n pb t.input s in
      elim (Bool-cases (is_due n pb t.input s)) [
        | inl late ↦
            let (can, lo, hi) = h.0 late in
            let due : after.next_beat + ahead ≡ s.next_beat + ahead + heartbeat_period_ms =
              ground (arith, next, late) in
            rw (beat-beats_in t.arrives t.input s late can) (
              (t.input.beat_input, (interrupted n pb t.input s).beats, s.link, refl),
              ground (arith, lo, late),
              hi,
              rw (← due) rest,
            )
        | inr wait ↦
            let due : s.next_beat + ahead ≡ after.next_beat + ahead = ground (arith, next, wait) in
            rw (wait-beats_in t.arrives t.input s wait, due) rest
      ]

  -- The peer is not announced offline while its beats are punctual. Let each beat that comes due in
  -- some passes of the peer's loop find a controller that can transmit, and reach the gateway no more
  -- than 2500 ms after it was due, and let the receiving thread, at whatever uptimes its passes come,
  -- find in each the frames that have reached it since the last one, from a start at which the first
  -- of them was no more than 1000 ms away, until 2500 ms after the beat that the passes do not send
  -- any more was due. Then it announces the peer online once, if a frame came before a pass at all,
  -- and never offline.
  pub peer_stays_online :
      (ahead start : ℕ) (ts : List Trip) (s : PeerState n pb) (is : List RxInput)
      → Punctual ahead ts s
      → s.next_beat + ahead ≤ start + heartbeat_period_ms
      → All
          (λ (i : RxInput).
            i.now < (run n pb (map (λ (t : Trip). t.input) ts) s).next_beat + ahead + slack_ms)
          is
      → let looks = fed (arrivals ts s) is in
        statuses (rx_run looks (rx_at_loop start [])).0
        ≡ (if any_frame looks then true ∷ [] else [])
  peer_stays_online ahead start ts s is h soon stop =
      let paced = arrivals-Paced ahead ts s h in
      let fits = NoGap-fed is start (s.next_beat + ahead) _ (arrivals ts s) paced soon stop in
      beats_keep_online start (fed (arrivals ts s) is) fits.0 fits.1
