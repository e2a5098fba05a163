-- ===== src/Peer/Loop/Backoff.antt =====
-- The link state over many passes of the peer's loop, and what it lets through.
pub mod Sending
use climate_node.Common.{
  ℕ, suc, ◌≡◌, ◌⊎◌, inl, inr, refl, ap, ◌∙◌, subst, Bool, true, false, List, [], ◌∷◌, Option, none,
  some, if◌then◌else◌, if_both, if_along,
}
use climate_node.AppChannels.{SensorReading}
use climate_node.Commands.{Node}
use climate_node.Protocol.{Nanopb}
use climate_node.Peer.{LinkState, note_link, bus_transmittable, send_heartbeat}
use climate_node.Peer.Link.{down, note_link-down, note_link-up}
use climate_node.Peer.Loop.{
  PassInput, Received, nothing, payload, PeerState, Output, on_telemetry, channel_read,
  forward_reading, take_reading, receive, beat_pass, wait_pass, interrupted, pass, may_send,
}
use climate_node.Peer.Loop.Cadence.{run, is_due}
use climate_node.Peer.Loop.Readings.{receive-telemetry}

-- Up without a backoff, or down since a failure at the time `t`, with the doublings of some failures
-- before it.
abbrev pub IsLink : ℕ → LinkState → Type 0
IsLink t l = ((l.link_up ≡ true) × (l.tx_backoff_ms ≡ 0)) ⊎ ((k : ℕ) × (l ≡ down k t))

note_link-IsLink : (ok : Bool) (u t : ℕ) (l : LinkState) → IsLink t l → IsLink u (note_link ok u l)
unfolding note_link
note_link-IsLink true u t l _ = inl (refl, refl)
note_link-IsLink false u t l (inl up) = inr (0, note_link-up u l up.1)
note_link-IsLink false u t l (inr (k, same)) = inr (suc k, rw same (note_link-down k t u))

module _ (n : Node) (pb : Nanopb) where
  abbrev takes_reading : PassInput → PeerState n pb → Option SensorReading
  takes_reading i s = if s.telemetry_pending then channel_read i s.telemetry else none

  abbrev noted_sending : PassInput → Option SensorReading → LinkState → ℕ → ℕ
  noted_sending i none l t = t
  noted_sending i (some r) l t = if may_send n pb i l then i.telemetry_noted else t

  -- The uptime of the last `note_link` once the pass is over, if it was `t` before.
  abbrev pub noted_at : PassInput → PeerState n pb → ℕ → ℕ
  noted_at i s t =
      if is_due n pb i s
      then i.beat_input.noted
      else noted_sending i (takes_reading i (interrupted n pb i s)) s.link t

  abbrev pub last_noted : ℕ → List PassInput → PeerState n pb → ℕ
  last_noted t [] s = t
  last_noted t (i ∷ is) s = last_noted (noted_at i s t) is (pass n pb i s).1

  forward_reading-IsLink :
      (t : ℕ) (i : PassInput) (r : SensorReading) (s : PeerState n pb)
      → IsLink t s.link
      → IsLink (noted_sending i (some r) s.link t) (forward_reading n pb i r s).1.link
  unfolding forward_reading
  forward_reading-IsLink t i r s ok =
      if_along (λ (u : ℕ) (x : List (List ℕ) × PeerState n pb). IsLink u x.1.link)
        (may_send n pb i s.link) (note_link-IsLink _ i.telemetry_noted t s.link ok) ok

  pub receive-link :
      (i : PassInput) (r : Received) (s : PeerState n pb) → (receive n pb i r s).1.link ≡ s.link
  unfolding receive
  receive-link i nothing s = refl
  receive-link i (payload buf) s = refl

  -- As the reading is taken.
  abbrev pub taking : PassInput → PeerState n pb → PeerState n pb
  taking i received =
      on_telemetry n pb i.published_late (record received { telemetry_pending = false })

  take_reading-IsLink :
      (t : ℕ) (i : PassInput) (r : Option SensorReading) (s : PeerState n pb)
      → IsLink t s.link
      → IsLink (noted_sending i r s.link t) (take_reading n pb i r s).1.link
  unfolding take_reading
  take_reading-IsLink t i none s ok = ok
  take_reading-IsLink t i (some r) s ok = forward_reading-IsLink t i r s ok

  wait_pass-IsLink :
      (t : ℕ) (i : PassInput) (s : PeerState n pb)
      → IsLink t s.link
      → IsLink (noted_sending i (takes_reading i s) s.link t) (wait_pass n pb i s).1.link
  unfolding wait_pass
  wait_pass-IsLink t i s ok =
      let received : PeerState n pb = (receive n pb i i.received s).1 in
      let same = receive-link i i.received s in
      let read = channel_read i received.telemetry in
      let taken = take_reading-IsLink t i read (taking i received) (rw same ok) in
      let after : PeerState n pb = (take_reading n pb i read (taking i received)).1 in
      let still : IsLink t received.link = rw same ok in
      let told =
        ap (λ l. noted_sending i read l t) same
        ∙ ap (λ r. noted_sending i (channel_read i r) s.link t)
            (receive-telemetry n pb i i.received s) in
      if_along
        (λ (r : Option SensorReading) (x : List Output × PeerState n pb).
          IsLink (noted_sending i r s.link t) x.1.link)
        s.telemetry_pending (subst (λ u. IsLink u after.link) told taken) still

  beat_pass-IsLink :
      (t : ℕ) (i : PassInput) (s : PeerState n pb)
      → IsLink t s.link
      → IsLink i.beat_input.noted (beat_pass n pb i s).1.link
  unfolding beat_pass send_heartbeat
  beat_pass-IsLink t i s ok =
      if_both (λ (x : List Output × PeerState n pb). IsLink i.beat_input.noted x.1.link)
        (bus_transmittable i.beat_can_state) (note_link-IsLink _ i.beat_input.noted t s.link ok)
        (note_link-IsLink false i.beat_input.noted t s.link ok)

  pass-IsLink :
      (t : ℕ) (i : PassInput) (s : PeerState n pb)
      → IsLink t s.link
      → IsLink (noted_at i s t) (pass n pb i s).1.link
  unfolding pass
  pass-IsLink t i s ok =
      if_along (λ (u : ℕ) (x : List Output × PeerState n pb). IsLink u x.1.link) (is_due n pb i s)
        (beat_pass-IsLink t i (interrupted n pb i s) ok)
        (wait_pass-IsLink t i (interrupted n pb i s) ok)

  -- Over any passes of the loop, whatever the bus, the gateway and the sensor do, from a link that is
  -- up and has no backoff: the link is up and there is no backoff, or it is down, with 2000 ms
  -- doubled some times and capped at 30000 ms as its backoff, and the next attempt due that long
  -- after the last outcome was noted.
  pub run-IsLink :
      (t : ℕ) (is : List PassInput) (s : PeerState n pb)
      → IsLink t s.link
      → IsLink (last_noted t is s) (run n pb is s).link
  unfolding run
  run-IsLink t [] s ok = ok
  run-IsLink t (i ∷ is) s ok =
      run-IsLink (noted_at i s t) is (pass n pb i s).1 (pass-IsLink t i s ok)
