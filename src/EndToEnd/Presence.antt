-- ===== src/EndToEnd/Presence.antt =====
-- The peer's heartbeats on their way to the gateway's verdict on it: send_heartbeat of
-- peer-node/src/main.cpp, rx_thread of gateway/src/relay.cpp.
use climate_node.Common.{
  ℕ, ◌+◌, ◌<◌, ◌^◌, ◌%◌, ◌/◌, ◌≡◌, ◌≢◌, ◌↔◌, inl, refl, ap, ◌∙◌, Bool, true, false, List, [], ◌∷◌,
  map, none, take, arith, if◌then◌else◌,
}
use climate_node.CanLink.{heartbeat_timeout_ms, heartbeat_unpack}
use climate_node.CanLink.Frame.{heartbeat_unpack-heartbeat_pack}
use climate_node.Peer.{BeatFrame, BeatInput, BeatState, LinkState, send_heartbeat}
use climate_node.Relay.{LivenessState, peer_online, liveness_step, CanFrame}
use climate_node.Relay.Liveness.{Look, announced, listening_since}
use climate_node.Relay.Routing.{AnyValid}
use climate_node.Relay.Threads.{RxInput, rx_run, rx_at_loop, queue_all}
use climate_node.Relay.Threads.Receiving.{Looks, statuses, rx_run-Looks}

-- A frame of the peer's as the gateway's driver gets it.
abbrev pub on_bus : BeatFrame → CanFrame
on_bus f = record { frame_data = f.frame_data; byte_count = f.dlc }

-- One of the peer's heartbeats, in whatever state it was sent.
abbrev pub IsBeat : CanFrame → Type 0
IsBeat f =
    (i : BeatInput) × (b : BeatState) × (l : LinkState) × (f ≡ on_bus (send_heartbeat i b l).0)

abbrev pub AllBeats : List CanFrame → Type 0
AllBeats [] = Unit {0}
AllBeats (f ∷ fs) = IsBeat f × AllBeats fs

abbrev pub HearsBeats : List RxInput → Type 0
HearsBeats [] = Unit {0}
HearsBeats (i ∷ is) = AllBeats i.frames × HearsBeats is

abbrev pub some_frame : List CanFrame → Bool
some_frame [] = false
some_frame (f ∷ fs) = true

-- Each pass comes less than the timeout after the last one that had a frame, or the start.
abbrev pub NoGap : ℕ → List RxInput → Type 0
NoGap t [] = Unit {0}
NoGap t (i ∷ is) =
    let last = if some_frame i.frames then i.now else t in
    (i.now < last + heartbeat_timeout_ms) × NoGap last is

abbrev pub any_frame : List RxInput → Bool
any_frame [] = false
any_frame (i ∷ is) = if some_frame i.frames then true else any_frame is

abbrev look_of : RxInput → Look
look_of i = record { seen = some_frame i.frames; now = i.now }

IsBeat-valid : (f : CanFrame) → IsBeat f → heartbeat_unpack f.frame_data f.byte_count ≢ none
unfolding send_heartbeat
IsBeat-valid f (i, b, l, same) none_read =
    let hb = record b.hb_state { uptime_s = i.filled / 1000 % 2 ^ 32 } in
    let read = heartbeat_unpack-heartbeat_pack hb (omega arith) in
    let both = ap (λ (g : CanFrame). heartbeat_unpack g.frame_data g.byte_count) same in
    ground (arith, read, both, none_read)

seen_iff : (fs : List CanFrame) → AllBeats fs → (some_frame fs ≡ true) ↔ AnyValid (take 4 fs)
seen_iff [] h = ground arith
seen_iff (f ∷ fs) h = ((λ e. inl (IsBeat-valid f h.0)), (λ v. refl))

Looks-look_of : (is : List RxInput) → HearsBeats is → Looks [] is (map look_of is)
Looks-look_of [] h = tt
Looks-look_of (i ∷ is) h = (refl, seen_iff i.frames h.0, Looks-look_of is h.1)

abbrev online_since : ℕ → LivenessState
online_since t = record { state = peer_online; last_seen_ms = t }

liveness_step-online :
    (t now : ℕ) (seen : Bool)
    → let last = if seen then now else t in
      now < last + heartbeat_timeout_ms
      → liveness_step (online_since t) seen now heartbeat_timeout_ms ≡ (online_since last, false)
unfolding liveness_step
liveness_step-online t now false h = ground (arith, h)
liveness_step-online t now true h = refl

-- Once online, without a gap nothing is announced.
announced-online :
    (t : ℕ) (is : List RxInput)
    → NoGap t is
    → announced heartbeat_timeout_ms (online_since t) (map look_of is) ≡ []
unfolding announced
announced-online t [] h = refl
announced-online t (i ∷ is) h =
    rw (liveness_step-online t i.now (some_frame i.frames) h.0) (announced-online _ is h.1)

announced-first :
    (seen : Bool) (t now : ℕ) (ks : List Look) (later : Bool)
    → now < (if seen then now else t) + heartbeat_timeout_ms
    → (seen ≡ true → announced heartbeat_timeout_ms (online_since now) ks ≡ [])
    → (seen ≡ false
        → announced heartbeat_timeout_ms (listening_since t) ks ≡ (if later then true ∷ [] else []))
    → announced heartbeat_timeout_ms (listening_since t) (record { seen = seen; now = now } ∷ ks)
      ≡ (if (if seen then true else later) then true ∷ [] else [])
unfolding announced liveness_step
announced-first true t now ks later h on off = ap (λ l. true ∷ l) (on refl)
announced-first false t now ks later h on off = ground (arith, h, off refl)

announced-unknown :
    (t : ℕ) (is : List RxInput)
    → NoGap t is
    → announced heartbeat_timeout_ms (listening_since t) (map look_of is)
      ≡ (if any_frame is then true ∷ [] else [])
unfolding announced
announced-unknown t [] h = refl
announced-unknown t (i ∷ is) h =
    let next = h.1 in
    announced-first (some_frame i.frames) t i.now (map look_of is) (any_frame is) h.0
      (λ e. announced-online i.now is (rw e at next)) (λ e. announced-unknown t is (rw e at next))

-- If all the heartbeat frames that reach the gateway are the peer's, whatever states it sent them in,
-- and no pass of the receiving thread comes the timeout or more after the last pass that had one, or
-- after the start: the peer is announced online exactly once, if there was a frame at all, and never
-- offline.
pub beats_keep_online :
    (start : ℕ) (is : List RxInput)
    → HearsBeats is
    → NoGap start is
    → statuses (rx_run is (rx_at_loop start [])).0 ≡ (if any_frame is then true ∷ [] else [])
unfolding queue_all
beats_keep_online start is beats fed =
    (rx_run-Looks [] is (map look_of is) (listening_since start) (Looks-look_of is beats)).0
    ∙ announced-unknown start is fed
