-- ===== src/Gateway/Heard.antt =====
-- What the broker has told a session of gateway/src/main.cpp about its connection, and what the flags
-- that mqtt_evt_handler sets say of it.
use mathlib.Core.List.{append_assoc, append-nil}
use climate_node.Common.{
  ◌≡◌, refl, sym, ap, ◌∙◌, subst, Bool, true, false, not, ◌&&◌, List, [], ◌∷◌, ◌++◌, Option,
  if◌then◌else◌, if_both, if_cases, if_along, if_along_cases, ◌+◌, leb, arith, ℕ,
}
use climate_node.Common.Decimal.{All, All-append}
use climate_node.Zephyr.{Rc, is_success}
use climate_node.Relay.{RelayStatus}
use climate_node.Gateway.{
  connack_timeout_ms, MqttCall, SessionState, idle, connecting, serving, NodeSession,
}
use climate_node.Gateway.Lifecycle.{
  session_drop, session_connect, session_serving, Evt, connack, disconnect, other_evt, on_evt,
  on_evts, SessionInput, is_idle, is_serving, start, take_input, tolerated, look_after,
  look_after_in,
}

abbrev pub is_loss : Evt → Bool
is_loss disconnect = true
is_loss _ = false

abbrev pub NoLoss : Evt → Type 0
NoLoss e = is_loss e ≡ false

-- A CONNACK without an error is among the events; and no DISCONNECT comes after it.
abbrev pub Accepted : List Evt → Type 0
Accepted es =
    (before : List Evt) × (rc : Rc) × (after : List Evt) × (is_success rc ≡ true)
    × (es ≡ before ++ (connack rc ∷ after))

abbrev pub Standing : List Evt → Type 0
Standing es =
    (before : List Evt) × (rc : Rc) × (after : List Evt) × (is_success rc ≡ true)
    × (es ≡ before ++ (connack rc ∷ after))
    × All NoLoss after

Standing-Accepted : (es : List Evt) → Standing es → Accepted es
Standing-Accepted es (before, rc, after, ok, same, kept) = (before, rc, after, ok, same)

Accepted-append : (es more : List Evt) → Accepted es → Accepted (es ++ more)
Accepted-append es more (before, rc, after, ok, same) = (
  before,
  rc,
  after ++ more,
  ok,
  ap (λ l. l ++ more) same ∙ append_assoc before (connack rc ∷ after) more,
)

Standing-append : (es : List Evt) (e : Evt) → NoLoss e → Standing es → Standing (es ++ (e ∷ []))
Standing-append es e none_lost (before, rc, after, ok, same, kept) = (
  before,
  rc,
  after ++ (e ∷ []),
  ok,
  ap (λ l. l ++ (e ∷ [])) same ∙ append_assoc before (connack rc ∷ after) (e ∷ []),
  All-append NoLoss after (e ∷ []) kept (none_lost, tt),
)

-- A session that is connected was accepted and has heard of no loss since; one that serves was
-- accepted.
abbrev pub Told : List Evt → NodeSession → Type 0
Told es s = (s.connected ≡ true → Standing es) × (is_serving s.state ≡ true → Accepted es)

Told-on_evt :
    (e : Evt) (es : List Evt) (s : NodeSession) → Told es s → Told (es ++ (e ∷ [])) (on_evt e s)
Told-on_evt (connack rc) es s (stands, accepts) =
    if_cases (Told (es ++ (connack rc ∷ []))) (is_success rc)
      (λ ok. (
        (λ _. (es, rc, [], ok, refl, tt)),
        (λ h. Accepted-append es (connack rc ∷ []) (accepts h)),
      ))
      (λ refused. (
        (λ h. Standing-append es (connack rc) refl (stands h)),
        (λ h. Accepted-append es (connack rc ∷ []) (accepts h)),
      ))
Told-on_evt disconnect es s (stands, accepts) =
    ((λ h. absurd (ground (arith, h))), (λ h. Accepted-append es (disconnect ∷ []) (accepts h)))
Told-on_evt other_evt es s (stands, accepts) = (
  (λ h. Standing-append es other_evt refl (stands h)),
  (λ h. Accepted-append es (other_evt ∷ []) (accepts h)),
)

Told-on_evts :
    (more es : List Evt) (s : NodeSession) → Told es s → Told (es ++ more) (on_evts more s)
unfolding on_evts
Told-on_evts [] es s h = subst (λ l. Told l s) (sym (append-nil es)) h
Told-on_evts (e ∷ more) es s h =
    subst (λ l. Told l (on_evts more (on_evt e s))) (append_assoc es (e ∷ []) more)
      (Told-on_evts more (es ++ (e ∷ [])) (on_evt e s) (Told-on_evt e es s h))

-- Neither connected nor serving.
abbrev Out : NodeSession → Type 0
Out s = (s.connected ≡ false) × (is_serving s.state ≡ false)

Told-Out : (es : List Evt) (s : NodeSession) → Out s → Told es s
Told-Out es s (off, away) = ((λ h. absurd (ground arith)), (λ h. absurd (ground arith)))

pub Told-session_drop :
    (es : List Evt) (s : NodeSession) (reached : Bool) (noted : ℕ)
    → Told es (session_drop s reached noted).1
unfolding session_drop
Told-session_drop es s reached noted = Told-Out es (session_drop s reached noted).1 (refl, refl)

-- What a session has heard since its last attempt to connect, after a part of a pass.
abbrev connects : SessionInput → NodeSession → Bool
connects i s = is_idle s.state && leb s.retry_at i.now

abbrev pub heard_at_start : SessionInput → NodeSession → List Evt → List Evt
heard_at_start i s es = if connects i s then [] else es

abbrev pub heard_from_socket : SessionInput → NodeSession → List Evt → List Evt
heard_from_socket i s es = if not (is_idle s.state) && i.readable then es ++ i.events else es

abbrev pub comes_to_serve : NodeSession → Bool
comes_to_serve s = (not (is_idle s.state) && not (is_serving s.state)) && s.connected

abbrev pub heard_while_served : SessionInput → NodeSession → List Evt → List Evt
heard_while_served i s es = if comes_to_serve s then es ++ i.serving_events else es

-- What such a part makes of a session, with what it has heard then.
abbrev TellsCall : List Evt → List MqttCall × NodeSession → Type 0
TellsCall es r = Told es r.1

pub Told-start :
    (i : SessionInput) (s : NodeSession) (es : List Evt)
    → Told es s
    → Told (heard_at_start i s es) (start i s).1
unfolding start session_connect
Told-start i s es h =
    let asked = record s {
      connected = false;
      connect_failed = false;
      state = connecting;
      connack_due = i.connect_noted + connack_timeout_ms;
    } in
    let failed = record s { connected = false; connect_failed = false; state = idle } in
    if_along TellsCall (connects i s)
      (if_both (TellsCall []) (is_success i.connect_rc) (Told-Out [] asked (refl, refl))
        (Told-session_drop [] failed false i.connect_noted))
      h

pub Told-take_input :
    (i : SessionInput) (s : NodeSession) (es : List Evt)
    → Told es s
    → Told (heard_from_socket i s es) (take_input i s).1
unfolding take_input
Told-take_input i s es h =
    let heard = es ++ i.events in
    if_along TellsCall (not (is_idle s.state) && i.readable)
      (if_both (TellsCall heard) (is_success i.input_rc) (Told-on_evts i.events es s h)
        (Told-session_drop heard _ _ i.input_noted))
      h

Told-session_serving :
    (es : List Evt) (s : NodeSession) (status : Option RelayStatus)
    → s.connected ≡ true
    → Told es s
    → Told es (session_serving s status).1
Told-session_serving es s status told (stands, accepts) =
    ((λ _. stands told), (λ _. Standing-Accepted es (stands told)))

Told-look_after_in :
    (q : SessionState) (i : SessionInput) (s : NodeSession) (es : List Evt)
    → s.state ≡ q
    → Told es s
    → Told (heard_while_served i (record s { state = q }) es) (look_after_in q i s).1
unfolding look_after_in
Told-look_after_in idle i s es at h = h
Told-look_after_in connecting i s es at h =
    let served = (session_serving s i.status).1 in
    let dropped = Told-session_drop es s false i.drop_noted in
    if_along_cases TellsCall s.connected
      (λ on. Told-on_evts i.serving_events es served (Told-session_serving es s i.status on h))
      (λ off.
        if_both (TellsCall es) s.connect_failed dropped
          (if_both (TellsCall es) (leb s.connack_due i.later) dropped h))
Told-look_after_in serving i s es at h =
    let dropped = Told-session_drop es s true i.drop_noted in
    if_both (TellsCall es) (not s.connected) dropped
      (if_both (TellsCall es) (tolerated i.live_rc) h dropped)

pub Told-look_after :
    (i : SessionInput) (s : NodeSession) (es : List Evt)
    → Told es s
    → Told (heard_while_served i s es) (look_after i s).1
unfolding look_after
Told-look_after i s es h = Told-look_after_in s.state i s es refl h
