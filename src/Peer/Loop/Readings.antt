-- ===== src/Peer/Loop/Readings.antt =====
-- The reading that waits on the channel, over many passes of the peer's loop.
use climate_node.Common.{
  ◌≡◌, refl, sym, ap, ◌∙◌, false, List, [], ◌∷◌, ◌++◌, Option, none, some, if_both,
}
use climate_node.AppChannels.{SensorReading}
use climate_node.Commands.{Node}
use climate_node.Protocol.{Nanopb}
use climate_node.Peer.{bus_transmittable}
use climate_node.Peer.Loop.{
  PassInput, Received, nothing, payload, newest, PeerState, Output, on_telemetry, channel_read,
  may_send, forward_reading, take_reading, receive, beat_pass, wait_pass, interrupted, pass,
}
use climate_node.Peer.Loop.Cadence.{run, is_due}

-- All that the sensor thread published in some passes, oldest first.
abbrev pub all_published : List PassInput → List SensorReading
all_published [] = []
all_published (i ∷ is) = (i.published ++ i.published_late) ++ all_published is

newest_++ :
    (r : SensorReading) (xs ys : List SensorReading) → newest r (xs ++ ys) ≡ newest (newest r xs) ys
newest_++ r [] ys = refl
newest_++ r (x ∷ xs) ys = newest_++ x xs ys

module _ (n : Node) (pb : Nanopb) where
  take_reading-telemetry :
      (i : PassInput) (o : Option SensorReading) (s : PeerState n pb)
      → (take_reading n pb i o s).1.telemetry ≡ s.telemetry
  unfolding take_reading forward_reading
  take_reading-telemetry i none s = refl
  take_reading-telemetry i (some r) s =
      if_both (λ (x : List (List _) × PeerState n pb). x.1.telemetry ≡ s.telemetry)
        (may_send n pb i s.link) refl refl

  pub receive-telemetry :
      (i : PassInput) (r : Received) (s : PeerState n pb)
      → (receive n pb i r s).1.telemetry ≡ s.telemetry
  unfolding receive
  receive-telemetry i nothing s = refl
  receive-telemetry i (payload buf) s = refl

  abbrev Holds : SensorReading → List Output × PeerState n pb → Type 0
  Holds r x = x.1.telemetry ≡ r

  wait_pass-telemetry :
      (i : PassInput) (s : PeerState n pb)
      → Holds (newest s.telemetry i.published_late) (wait_pass n pb i s)
  unfolding wait_pass
  wait_pass-telemetry i s =
      let received : PeerState n pb = (receive n pb i i.received s).1 in
      let same = ap (λ r. newest r i.published_late) (receive-telemetry i i.received s) in
      if_both (Holds (newest s.telemetry i.published_late)) s.telemetry_pending
        (take_reading-telemetry i (channel_read i received.telemetry)
            (on_telemetry n pb i.published_late (record received { telemetry_pending = false }))
          ∙ same)
        same

  beat_pass-telemetry :
      (i : PassInput) (s : PeerState n pb)
      → Holds (newest s.telemetry i.published_late) (beat_pass n pb i s)
  unfolding beat_pass
  beat_pass-telemetry i s =
      if_both (Holds (newest s.telemetry i.published_late)) (bus_transmittable i.beat_can_state)
        refl refl

  pass-telemetry :
      (i : PassInput) (s : PeerState n pb)
      → Holds (newest s.telemetry (i.published ++ i.published_late)) (pass n pb i s)
  unfolding pass
  pass-telemetry i s =
      let x : PeerState n pb = interrupted n pb i s in
      let split = sym (newest_++ s.telemetry i.published i.published_late) in
      if_both (Holds (newest s.telemetry (i.published ++ i.published_late))) (is_due n pb i s)
        (beat_pass-telemetry i x ∙ split) (wait_pass-telemetry i x ∙ split)

  run-telemetry :
      (is : List PassInput) (s : PeerState n pb)
      → (run n pb is s).telemetry ≡ newest s.telemetry (all_published is)
  unfolding run
  run-telemetry [] s = refl
  run-telemetry (i ∷ is) s =
      run-telemetry is (pass n pb i s).1
      ∙ (ap (λ r. newest r (all_published is)) (pass-telemetry i s)
          ∙ sym (newest_++ s.telemetry (i.published ++ i.published_late) (all_published is)))

  -- What a pass after a run finds on the channel when it reads it.
  pub newest-run :
      (is : List PassInput) (s : PeerState n pb) (i : PassInput)
      → newest (interrupted n pb i (run n pb is s)).telemetry i.published_late
        ≡ newest s.telemetry (all_published is ++ (i.published ++ i.published_late))
  newest-run is s i =
      ap (λ r. newest (newest r i.published) i.published_late) (run-telemetry is s)
      ∙ (sym (newest_++ (newest s.telemetry (all_published is)) i.published i.published_late)
          ∙ sym (newest_++ s.telemetry (all_published is) (i.published ++ i.published_late)))
