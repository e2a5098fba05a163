-- ===== src/Gateway/Runs.antt =====
-- What many passes of the main loop of gateway/src/main.cpp keep of a session.
use climate_node.Common.{ℕ, ◌≡◌, refl, Bool, true, false, ◌||◌, List, [], ◌∷◌, arith}
use climate_node.Gateway.{NodeSession, session_at_boot, SessionConfig}
use climate_node.Gateway.Lifecycle.{SessionInput, session_pass}
use climate_node.Gateway.Pass.{Timely, Ordered, Timely-session_pass}
use climate_node.Gateway.Accepted.{accepted, reported, reported_in, accepted-session_pass}

-- Many passes.
unfoldable pub session_run : List SessionInput → NodeSession → NodeSession
session_run [] s = s
session_run (i ∷ is) s = session_run is (session_pass i s).1

abbrev pub AllOrdered : ℕ → List SessionInput → Type 0
AllOrdered t [] = Unit {0}
AllOrdered t (i ∷ is) = Ordered t i × AllOrdered i.drop_noted is

abbrev pub end_of : ℕ → List SessionInput → ℕ
end_of t [] = t
end_of t (i ∷ is) = end_of i.drop_noted is

Timely-session_run :
    (is : List SessionInput) (s : NodeSession) (t : ℕ)
    → AllOrdered t is
    → Timely t s
    → Timely (end_of t is) (session_run is s)
unfolding session_run
Timely-session_run [] s t o w = w
Timely-session_run (i ∷ is) s t o w =
    Timely-session_run is (session_pass i s).1 i.drop_noted o.1 (Timely-session_pass i s t o.0 w)

accepted-session_run :
    (is : List SessionInput) (s : NodeSession) (before : Bool)
    → (accepted s || before) ≡ true
    → (accepted (session_run is s) || (before || reported_in is)) ≡ true
unfolding session_run
accepted-session_run [] s before h = ground (arith, h)
accepted-session_run (i ∷ is) s before h =
    let rest =
      accepted-session_run is (session_pass i s).1 (reported i.serving_events)
        (accepted-session_pass i s) in
    ground (arith, rest)

-- Over any passes of the main loop from the start of a session, with a clock that does not run
-- backwards and whatever the broker and the network do: the backoff stays within its bounds; the next
-- attempt is never further ahead than the longest backoff, nor the end of the wait for a CONNACK than
-- its timeout; and a session that is left serving was accepted by the broker and has not been
-- reported lost since, except over the messages of a pass in which it came to serve.
pub session_run_lem :
    (is : List SessionInput) (c : SessionConfig) (t : ℕ)
    → AllOrdered t is
    → let s = session_run is (session_at_boot c) in
      Timely (end_of t is) s × ((accepted s || reported_in is) ≡ true)
session_run_lem is c t o = (
  Timely-session_run is (session_at_boot c) t o
      (omega arith, omega arith, omega arith, omega arith),
  accepted-session_run is (session_at_boot c) false refl,
)
