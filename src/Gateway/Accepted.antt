-- ===== src/Gateway/Accepted.antt =====
-- When a pass of the main loop leaves a session of gateway/src/main.cpp serving.
use climate_node.Common.{
  if_cases, ◌∙◌, ◌≡◌, refl, Bool, true, false, not, ◌||◌, List, [], ◌∷◌, Option, none, some, arith,
}
use climate_node.Relay.{RelayStatus}
use climate_node.Gateway.{MqttCall, SessionState, idle, connecting, serving, NodeSession, publish}
use climate_node.Gateway.Lifecycle.{
  session_drop, session_serving, Evt, on_evts, SessionInput, start, take_input, look_after,
  look_after_in, is_serving, session_pass,
}

-- A session that serves is connected.
abbrev pub accepted : NodeSession → Bool
accepted s = not (is_serving s.state) || s.connected

-- The library reported something while the session came to serve, such as the loss of the connection
-- over the messages sent then.
abbrev pub reported : List Evt → Bool
reported [] = false
reported (e ∷ es) = true

abbrev pub reported_in : List SessionInput → Bool
reported_in [] = false
reported_in (i ∷ is) = reported i.serving_events || reported_in is

pub connected-session_serving :
    (s : NodeSession) (status : Option RelayStatus)
    → (session_serving s status).1.connected ≡ s.connected
unfolding session_serving publish
connected-session_serving s none = ground arith
connected-session_serving s (some st) = ground arith

served_or_reported :
    (es : List Evt) (s : NodeSession)
    → s.connected ≡ true
    → (accepted (on_evts es s) || reported es) ≡ true
unfolding on_evts
served_or_reported [] s h = ground (arith, h)
served_or_reported (e ∷ es) s h = ground arith

abbrev Settled : List Evt → List MqttCall × NodeSession → Type 0
Settled es r = (accepted r.1 || reported es) ≡ true

pub accepted-look_after_in :
    (q : SessionState) (i : SessionInput) (s : NodeSession)
    → s.state ≡ q
    → (accepted (look_after_in q i s).1 || reported i.serving_events) ≡ true
unfolding look_after_in session_drop
accepted-look_after_in idle i s h = ground arith
accepted-look_after_in connecting i s h =
    let served = (session_serving s i.status).1 in
    if_cases (Settled i.serving_events) s.connected
      (λ told.
        served_or_reported i.serving_events served (connected-session_serving s i.status ∙ told))
      (λ untold. ground (arith, h))
accepted-look_after_in serving i s h = ground arith

pub accepted-session_pass :
    (i : SessionInput) (s : NodeSession)
    → (accepted (session_pass i s).1 || reported i.serving_events) ≡ true
unfolding session_pass look_after
accepted-session_pass i s =
    let heard = (take_input i (start i s).1).1 in accepted-look_after_in heard.state i heard refl
