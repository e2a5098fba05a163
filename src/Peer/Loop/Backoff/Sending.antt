-- ===== src/Peer/Loop/Backoff/Sending.antt =====
-- When the peer sends a reading, over many passes of its loop in peer-node/src/main.cpp.
use climate_node.Common.{
  ℕ, ◌+◌, ◌≤◌, ◌≡◌, ◌⊎◌, inl, inr, ap, ◌∙◌, subst, Bool, true, false, ◌&&◌, ◌<◌, List, [], ◌∷◌,
  ◌++◌, map, none, some, arith, if◌then◌else◌,
}
use native.Mathlib.Nat.{one-le-pow}
use climate_node.AppChannels.{SensorReading}
use climate_node.CanLink.{relay_msg_telemetry}
use climate_node.Commands.{Node}
use climate_node.Protocol.{Nanopb, IsNanopb, encode_telemetry}
use climate_node.Protocol.Telemetry.{ReadingFits, visible, host_reading}
use climate_node.Peer.{LinkState, bus_transmittable, tx_backoff_min_ms}
use climate_node.Peer.Loop.{
  PassInput, PeerState, Output, isotp, newest, on_telemetry, channel_read, forward_reading,
  take_reading, receive, wait_pass, interrupted, pass, may_send, forward_reading_lem,
}
use climate_node.Peer.Loop.Cadence.{run, is_due}
use climate_node.Peer.Loop.Readings.{all_published, receive-telemetry, newest-run}
use climate_node.Peer.Loop.Backoff.{IsLink, last_noted, receive-link, taking, run-IsLink}

module _ (n : Node) (pb : Nanopb) where
  -- Less than the shortest backoff after an outcome was noted, the backoff of a link that is down is
  -- not over.
  may_send-soon :
      (t : ℕ) (i : PassInput) (l : LinkState)
      → IsLink t l
      → i.test_now < t + tx_backoff_min_ms
      → may_send n pb i l ≡ (bus_transmittable i.can_state && l.link_up)
  may_send-soon t i l (inl up) soon = ground (arith, up.0)
  may_send-soon t i l (inr (k, same)) soon = rw same (ground (arith, one-le-pow k 2 (omega arith)))

  -- What goes out for a reading, when it is sent exactly if `sent` is true.
  abbrev pub GoesOutIf : Bool → SensorReading → List (List ℕ) → Type 0
  GoesOutIf sent r frames =
      ((sent ≡ true)
        × (frames ≡ (relay_msg_telemetry ∷ encode_telemetry pb r pb.telemetry_size) ∷ [])
        × (host_reading pb (encode_telemetry pb r pb.telemetry_size) ≡ some (visible r)))
      ⊎ ((sent ≡ false) × (frames ≡ []))

  wait_pass-reading :
      (i : PassInput) (s : PeerState n pb)
      → s.telemetry_pending ≡ true
      → i.can_read ≡ true
      → let (answers, received) = receive n pb i i.received s in
        let r = newest s.telemetry i.published_late in
        (wait_pass n pb i s).0
        ≡ map isotp (answers ++ (forward_reading n pb i r (taking n pb i received)).0)
  unfolding wait_pass take_reading
  wait_pass-reading i s news can =
      let (answers, received) = receive n pb i i.received s in
      let took =
        ap
          (λ b.
            (take_reading n pb i
              (if b then some (newest received.telemetry i.published_late) else none)
              (taking n pb i received)).0)
          can
        ∙ ap (λ v. (forward_reading n pb i (newest v i.published_late) (taking n pb i received)).0)
            (receive-telemetry n pb i i.received s) in
      let taken =
        take_reading n pb i (channel_read i received.telemetry) (taking n pb i received) in
      let sends : List Output × PeerState n pb = (map isotp (answers ++ taken.0), taken.1) in
      let waits : List Output × PeerState n pb =
        (map isotp answers, on_telemetry n pb i.published_late received) in
      let first = ap (λ b. (if b then sends else waits).0) news in
      first ∙ ap (λ frames. map isotp (answers ++ frames)) took

  module _ (law : IsNanopb pb) (fits : pb.telemetry_size ≤ pb.ack_size) where
    forward_reading-GoesOutIf :
        (i : PassInput) (r : SensorReading) (s : PeerState n pb)
        → ReadingFits r
        → GoesOutIf (may_send n pb i s.link) r (forward_reading n pb i r s).0
    forward_reading-GoesOutIf i r s small =
        let all = forward_reading_lem n pb law fits i r s small in ground (arith, all)

    -- The backoff never decides whether a reading is sent, as long as the loop keeps its pace. After
    -- any passes of the loop from a link that is up without a backoff, let a pass wait while a
    -- reading is pending, read the channel, and do so less than 2000 ms after the last outcome was
    -- noted, and every beat notes one. Then the newest reading published so far goes out, in one
    -- frame that a host reads it from, exactly if the controller can transmit and the link is up; if
    -- not, nothing goes out for it.
    pub backoff_never_decides :
        (t : ℕ) (is : List PassInput) (s : PeerState n pb) (i : PassInput)
        → (s.link.link_up ≡ true) × (s.link.tx_backoff_ms ≡ 0)
        → let x = run n pb is s in
          let r = newest s.telemetry (all_published is ++ (i.published ++ i.published_late)) in
          ReadingFits r
          → is_due n pb i x ≡ false
          → (interrupted n pb i x).telemetry_pending ≡ true
          → i.can_read ≡ true
          → i.test_now < last_noted n pb t is s + tx_backoff_min_ms
          → (answers : List (List ℕ)) × (frames : List (List ℕ)) × ((pass n pb i x).0
              ≡ map isotp (answers ++ frames))
            × GoesOutIf (bus_transmittable i.can_state && x.link.link_up) r frames
    unfolding pass
    backoff_never_decides t is s i up small wait news can soon =
        let x : PeerState n pb = interrupted n pb i (run n pb is s) in
        let (answers, received) = receive n pb i i.received x in
        let r = newest x.telemetry i.published_late in
        let same = receive-link n pb i i.received x in
        let may =
          may_send-soon (last_noted n pb t is s) i x.link (run-IsLink n pb t is s (inl up)) soon in
        let new = newest-run n pb is s i in
        let out = forward_reading-GoesOutIf i r (taking n pb i received) (rw new small) in
        let frames = (forward_reading n pb i r (taking n pb i received)).0 in
        let sent = ap (may_send n pb i) same ∙ may in
        (
          answers,
          frames,
          rw wait (wait_pass-reading i x news can),
          rw (← new) (subst (λ b. GoesOutIf b r frames) sent out),
        )
