-- ===== src/Gateway/Pass.antt =====
-- What the passes of the main loop keep of a session, and how it comes to serve.
use climate_node.Common.{
  if_both, leb, ℕ, ◌+◌, ◌≤◌, Bool, true, false, List, [], ◌∷◌, Option, none, some, arith,
}
use climate_node.Zephyr.{Rc}
use climate_node.Relay.{RelayStatus}
use climate_node.Gateway.{
  MqttCall, backoff_min_ms, backoff_max_ms, connack_timeout_ms, SessionState, idle, connecting,
  serving, NodeSession, publish,
}
use climate_node.Gateway.Lifecycle.{
  session_drop, session_connect, session_serving, Evt, on_evt, on_evts, SessionInput, start,
  take_input, look_after, look_after_in, is_serving, session_pass, connack, disconnect, other_evt,
}

-- The backoff is within its bounds, and no deadline is further ahead of `t` than they allow.
abbrev pub Timely : ℕ → NodeSession → Type 0
Timely t s =
    (backoff_min_ms ≤ s.backoff_ms)
    × (s.backoff_ms ≤ backoff_max_ms)
    × (s.retry_at ≤ t + backoff_max_ms)
    × (s.connack_due ≤ t + connack_timeout_ms)

abbrev TimelyAfter : ℕ → List MqttCall × NodeSession → Type 0
TimelyAfter t r = Timely t r.1

pub Timely-session_drop :
    (s : NodeSession) (reached : Bool) (now e : ℕ)
    → now ≤ e
    → Timely e s
    → Timely e (session_drop s reached now).1
unfolding session_drop
Timely-session_drop s reached now e h w = ground arith

Timely-session_connect :
    (s : NodeSession) (rc : Rc) (now e : ℕ)
    → now ≤ e
    → Timely e s
    → Timely e (session_connect s rc now).1
unfolding session_connect session_drop
Timely-session_connect s rc now e h w = ground arith

Timely-session_serving :
    (s : NodeSession) (status : Option RelayStatus) (e : ℕ)
    → Timely e s
    → Timely e (session_serving s status).1
unfolding session_serving publish
Timely-session_serving s none e w = ground arith
Timely-session_serving s (some st) e w = ground arith

pub Timely-on_evt : (v : Evt) (s : NodeSession) (e : ℕ) → Timely e s → Timely e (on_evt v s)
Timely-on_evt (connack rc) s e w = ground arith
Timely-on_evt disconnect s e w = w
Timely-on_evt other_evt s e w = w

Timely-on_evts : (vs : List Evt) (s : NodeSession) (e : ℕ) → Timely e s → Timely e (on_evts vs s)
unfolding on_evts
Timely-on_evts [] s e w = w
Timely-on_evts (v ∷ vs) s e w = Timely-on_evts vs (on_evt v s) e (Timely-on_evt v s e w)

pub Timely-start :
    (i : SessionInput) (s : NodeSession) (e : ℕ)
    → i.connect_noted ≤ e
    → Timely e s
    → Timely e (start i s).1
unfolding start
Timely-start i s e h w = ground (arith, Timely-session_connect s i.connect_rc i.connect_noted e)

Timely-take_input :
    (i : SessionInput) (s : NodeSession) (e : ℕ)
    → i.input_noted ≤ e
    → Timely e s
    → Timely e (take_input i s).1
unfolding take_input
Timely-take_input i s e h w =
    let heard = on_evts i.events s in
    let kept = Timely-on_evts i.events s e w in
    ground (arith, kept, Timely-session_drop heard (is_serving heard.state) i.input_noted e)

Timely-look_after_in :
    (q : SessionState) (i : SessionInput) (s : NodeSession) (e : ℕ)
    → i.drop_noted ≤ e
    → Timely e s
    → Timely e (look_after_in q i s).1
unfolding look_after_in
Timely-look_after_in idle i s e h w = w
Timely-look_after_in connecting i s e h w =
    let served = Timely-session_serving s i.status e w in
    let told = Timely-on_evts i.serving_events (session_serving s i.status).1 e served in
    let dropped = Timely-session_drop s false i.drop_noted e h w in
    if_both (TimelyAfter e) s.connected told (
      if_both (TimelyAfter e) s.connect_failed dropped
        (if_both (TimelyAfter e) (leb s.connack_due i.later) dropped w))
Timely-look_after_in serving i s e h w =
    let dropped = Timely-session_drop s true i.drop_noted e h w in ground (arith, dropped)

pub Timely-look_after :
    (i : SessionInput) (s : NodeSession) (e : ℕ)
    → i.drop_noted ≤ e
    → Timely e s
    → Timely e (look_after i s).1
unfolding look_after
Timely-look_after i s e h w = Timely-look_after_in s.state i s e h w

-- The uptimes that a pass reads, in the order in which it reads them.
abbrev pub Ordered : ℕ → SessionInput → Type 0
Ordered t i =
    (t ≤ i.now)
    × (i.now ≤ i.connect_noted)
    × (i.connect_noted ≤ i.input_noted)
    × (i.input_noted ≤ i.later)
    × (i.later ≤ i.drop_noted)

pub Timely-session_pass :
    (i : SessionInput) (s : NodeSession) (t : ℕ)
    → Ordered t i
    → Timely t s
    → Timely i.drop_noted (session_pass i s).1
unfolding session_pass
Timely-session_pass i s t o w =
    let e = i.drop_noted in
    let started = Timely-start i s e (omega arith) (omega arith) in
    let heard = Timely-take_input i (start i s).1 e (omega arith) started in
    Timely-look_after i (take_input i (start i s).1).1 e (omega arith) heard
