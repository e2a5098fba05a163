-- ===== src/EndToEnd/Pace.antt =====
-- The loop of the peer beside the receiving thread of the gateway: the beats that the one sends while
-- its passes are late, as the other counts them. peer-node/src/main.cpp, gateway/src/relay.cpp.
pub mod Runs
use climate_node.Common.{
  ℕ, ◌+◌, ◌≤◌, ◌<◌, ◌≡◌, refl, Bool, true, false, List, [], ◌∷◌, arith, leb, if◌then◌else◌,
}
use climate_node.Common.Decimal.{All}
use climate_node.CanLink.{heartbeat_period_ms, heartbeat_timeout_ms}
use climate_node.Peer.Loop.{PassInput, Output, beat, isotp}
use climate_node.Relay.{CanFrame}
use climate_node.Relay.Threads.{RxInput}
use climate_node.EndToEnd.Presence.{on_bus, IsBeat, AllBeats, HearsBeats, some_frame, NoGap}

-- How late a beat may reach the gateway, counted from when it was due.
abbrev pub slack_ms : ℕ
slack_ms = 2500

-- A pass of the peer's loop, and when its beat, if it sends one, reaches the gateway.
pub record Trip : Type 0 where
  pub input : PassInput
  pub arrives : ℕ

abbrev pub Arrival : Type 0
Arrival = ℕ × CanFrame

abbrev pub beats_in : ℕ → List Output → List Arrival
beats_in t [] = []
beats_in t (beat f ∷ os) = (t, on_bus f) ∷ beats_in t os
beats_in t (isotp p ∷ os) = beats_in t os

-- The frames that a pass of the receiving thread at `now` finds, in the order of the bus, and the
-- ones that come later.
abbrev pub arrived : ℕ → List Arrival → List CanFrame
arrived now [] = []
arrived now ((t, f) ∷ xs) = let rest = arrived now xs in if leb t now then f ∷ rest else []

abbrev pub to_come : ℕ → List Arrival → List Arrival
to_come now [] = []
to_come now ((t, f) ∷ xs) = let rest = to_come now xs in if leb t now then rest else (t, f) ∷ xs

-- The passes of the receiving thread, with the frames of the peer that have come.
abbrev pub fed : List Arrival → List RxInput → List RxInput
fed xs [] = []
fed xs (i ∷ is) = record i { frames = arrived i.now xs } ∷ fed (to_come i.now xs) is

-- Arrivals of beats that were due at `due` and every period from then on, until `end`.
abbrev pub Paced : ℕ → List Arrival → ℕ → Type 0
Paced due [] end = due ≡ end
Paced due ((t, f) ∷ xs) end =
    IsBeat f × (due ≤ t) × (t ≤ due + slack_ms) × Paced (due + heartbeat_period_ms) xs end

-- What a look at the arrivals leaves.
abbrev After : ℕ → List Arrival → ℕ → ℕ → Type 0
After now xs due end =
    AllBeats (arrived now xs)
    × (later : ℕ) × Paced later (to_come now xs) end
    × (some_frame (arrived now xs) ≡ true → later ≤ now + heartbeat_period_ms)
    × (some_frame (arrived now xs) ≡ false → (later ≡ due) × (now < due + slack_ms))

NoGap-split :
    (t due later now : ℕ) (seen : Bool)
    → due ≤ t + heartbeat_period_ms
    → (seen ≡ true → later ≤ now + heartbeat_period_ms)
    → (seen ≡ false → (later ≡ due) × (now < due + slack_ms))
    → let last = if seen then now else t in
      (now < last + heartbeat_timeout_ms) × (later ≤ last + heartbeat_period_ms)
NoGap-split t due later now true soon heard silent = (omega arith, heard refl)
NoGap-split t due later now false soon heard silent =
    (omega (arith, silent refl), omega (arith, silent refl))

After-split :
    (b : Bool) (t now due end : ℕ) (f : CanFrame) (xs : List Arrival)
    → leb t now ≡ b
    → Paced due ((t, f) ∷ xs) end
    → After now xs (due + heartbeat_period_ms) end
    → After now ((t, f) ∷ xs) due end
After-split true t now due end f xs e (is, lo, hi, paced) (heard, later, left, some_lem, none_lem) =
    let soon : later ≤ now + heartbeat_period_ms =
      (let step =
          NoGap-split now (due + heartbeat_period_ms) later now (some_frame (arrived now xs))
            (ground (arith, e, lo)) some_lem none_lem in
        ground (arith, step.1)) in
    rw e ((is, heard), later, left, (λ _. soon), (λ z. absurd (ground (arith, z))))
After-split false t now due end f xs e paced _ = rw e (
  tt,
  due,
  paced,
  (λ z. absurd (ground (arith, z))),
  (λ _. (refl, ground (arith, e, paced.1, paced.2))),
)

After-Paced :
    (now due end : ℕ) (xs : List Arrival)
    → Paced due xs end
    → now < end + slack_ms
    → After now xs due end
After-Paced now due end [] h stop =
    (tt, due, h, (λ z. absurd (ground (arith, z))), (λ _. (refl, omega arith)))
After-Paced now due end ((t, f) ∷ xs) h stop =
    After-split (leb t now) t now due end f xs refl h
      (After-Paced now (due + heartbeat_period_ms) end xs h.3 stop)

pub NoGap-fed :
    (is : List RxInput) (t due end : ℕ) (xs : List Arrival)
    → Paced due xs end
    → due ≤ t + heartbeat_period_ms
    → All (λ (i : RxInput). i.now < end + slack_ms) is
    → HearsBeats (fed xs is) × NoGap t (fed xs is)
NoGap-fed [] t due end xs paced soon stop = (tt, tt)
NoGap-fed (i ∷ is) t due end xs paced soon stop =
    let (heard, later, left, some_lem, none_lem) = After-Paced i.now due end xs paced stop.0 in
    let step =
      NoGap-split t due later i.now (some_frame (arrived i.now xs)) soon some_lem none_lem in
    let rest = NoGap-fed is _ later end (to_come i.now xs) left step.1 stop.1 in
    ((heard, rest.0), (step.0, rest.1))
