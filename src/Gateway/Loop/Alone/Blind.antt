-- ===== src/Gateway/Loop/Alone/Blind.antt =====
-- The parts of a pass of gateway/src/main.cpp over a session look at its counter of message
-- identifiers only to number messages.
use climate_node.Common.{
  ℕ, ◌≡◌, refl, sym, ap, ◌∙◌, Bool, true, false, not, ◌&&◌, List, [], ◌∷◌, Option, none, some, leb,
  if_both, if_along, if◌then◌else◌, length, ◌==◌,
}
use climate_node.Zephyr.{success, is_success}
use climate_node.Protocol.{Nanopb, encode_telemetry}
use climate_node.Relay.{RelayStatus}
use climate_node.Gateway.{
  backoff_min_ms, SessionState, idle, connecting, serving, NodeSession, MqttCall, Qos, at_most_once,
  at_least_once, publish, peer_topic_status,
}
use climate_node.Gateway.Lifecycle.{
  session_drop, session_connect, status_text, announce_peer, session_serving, Evt, connack,
  disconnect, other_evt, on_evt, on_evts, SessionInput, is_idle, is_serving, start, take_input,
  look_after_in, look_after, tolerated,
}
use climate_node.Gateway.Channels.{Channel, read_events}
use climate_node.Gateway.Loop.{StageInput, slot_of, stage_on}
use climate_node.Gateway.Outgoing.{
  Slot, Sent, send, if_read, when_signalled, stage, publish_pending_telemetry, publish_relayed,
  publish_relayed_status,
}

abbrev pub unnumbered : NodeSession → NodeSession
unnumbered s = record s { next_message_id = 0 }

-- Two sessions that differ in their counters at most.
abbrev pub Alike : NodeSession → NodeSession → Type 0
Alike s s' = unnumbered s ≡ unnumbered s'

abbrev pub Blind : (NodeSession → List MqttCall × NodeSession) → Type 0
Blind f = (s : NodeSession) → Alike (f s).1 (f (unnumbered s)).1

pub Blind-Alike :
    (f : NodeSession → List MqttCall × NodeSession)
    → Blind f
    → (s s' : NodeSession) → Alike s s'
    → Alike (f s).1 (f s').1
Blind-Alike f blind s s' same = blind s ∙ (ap (λ x. unnumbered (f x).1) same ∙ sym (blind s'))

abbrev Along : List MqttCall × NodeSession → List MqttCall × NodeSession → Type 0
Along x y = Alike x.1 y.1

pub Blind-start : (i : SessionInput) → Blind (start i)
unfolding start session_connect session_drop
Blind-start i s =
    if_along Along (is_idle s.state && leb s.retry_at i.now)
      (if_along Along (is_success i.connect_rc) refl refl) refl

pub Alike-publish :
    (s : NodeSession) (topic payload : List ℕ) (qos : Qos) (retain : Bool)
    → Alike (publish s topic payload qos retain).1 s
unfolding publish
Alike-publish s topic payload at_most_once retain = refl
Alike-publish s topic payload at_least_once retain = refl

Alike-announce_peer : (s : NodeSession) (st : Option RelayStatus) → Alike (announce_peer s st).1 s
Alike-announce_peer s none = refl
Alike-announce_peer s (some st) =
    if_both (λ (x : List MqttCall × NodeSession). Alike x.1 s) (st.node_id == 0) refl
      (Alike-publish s _ _ at_least_once true)

Alike-session_serving :
    (s : NodeSession) (st : Option RelayStatus)
    → Alike (session_serving s st).1 (record s { state = serving; backoff_ms = backoff_min_ms })
unfolding session_serving
Alike-session_serving s st =
    let s' : NodeSession = record s { state = serving; backoff_ms = backoff_min_ms } in
    if_both (λ (x : List MqttCall × NodeSession). Alike x.1 s') s.config.is_peer
      (Alike-announce_peer s' st) (Alike-publish s' _ _ at_least_once true)

unnumbered-on_evt : (e : Evt) (s : NodeSession) → unnumbered (on_evt e s) ≡ on_evt e (unnumbered s)
unnumbered-on_evt (connack rc) s = if_along (λ x y. unnumbered x ≡ y) (is_success rc) refl refl
unnumbered-on_evt disconnect s = refl
unnumbered-on_evt other_evt s = refl

pub unnumbered-on_evts :
    (es : List Evt) (s : NodeSession) → unnumbered (on_evts es s) ≡ on_evts es (unnumbered s)
unfolding on_evts
unnumbered-on_evts [] s = refl
unnumbered-on_evts (e ∷ es) s =
    unnumbered-on_evts es (on_evt e s) ∙ ap (on_evts es) (unnumbered-on_evt e s)

pub Alike-on_evts :
    (es : List Evt) (s s' : NodeSession) → Alike s s' → Alike (on_evts es s) (on_evts es s')
Alike-on_evts es s s' same =
    unnumbered-on_evts es s ∙ (ap (on_evts es) same ∙ sym (unnumbered-on_evts es s'))

Blind-look_after_in : (q : SessionState) (i : SessionInput) → Blind (look_after_in q i)
unfolding look_after_in session_drop
Blind-look_after_in idle i s = refl
Blind-look_after_in connecting i s =
    if_along Along s.connected
      (Alike-on_evts i.serving_events (session_serving s i.status).1
        (session_serving (unnumbered s) i.status).1
        (Alike-session_serving s i.status ∙ sym (Alike-session_serving (unnumbered s) i.status)))
      (if_along Along s.connect_failed refl (if_along Along (leb s.connack_due i.later) refl refl))
Blind-look_after_in serving i s =
    if_along Along (not s.connected) refl (if_along Along (tolerated i.live_rc) refl refl)

pub Blind-look_after : (i : SessionInput) → Blind (look_after i)
unfolding look_after
Blind-look_after i s = Blind-look_after_in s.state i s

pub Alike-drop :
    (s s' : NodeSession) (reached : Bool) (now : ℕ)
    → Alike s s'
    → Alike (session_drop s reached now).1 (session_drop s' reached now).1
unfolding session_drop
Alike-drop s s' reached now same = ap (λ x. (session_drop x reached now).1) same

pub Blind-take_input : (i : SessionInput) → Blind (take_input i)
unfolding take_input
Blind-take_input i s =
    let same = unnumbered-on_evts i.events s in
    let serves = ap (λ x. is_serving x.state) same in
    if_along Along (not (is_idle s.state) && i.readable)
      (if_along Along (is_success i.input_rc) (Alike-on_evts i.events s (unnumbered s) refl) (
        rw serves (
          Alike-drop (on_evts i.events s) (on_evts i.events (unnumbered s)) _ i.input_noted
            (Alike-on_evts i.events s (unnumbered s) refl))))
      refl

-- What a publishing function gives for a session, beside what it gives without the session's counter.
abbrev Matches : NodeSession → Sent → Sent → Type 0
Matches s r r' = Alike r.1 s × (r.2 ≡ r'.2)

-- It numbers its message at most, and its result does not depend on the numbers.
abbrev pub Numbers : {A : Type 0} → (Slot A → NodeSession → Sent) → Type 0
Numbers f = (x : Slot _) (s : NodeSession) → Matches s (f x s) (f x (unnumbered s))

if_read-Matches :
    {A : Type 0} (x : Slot A) (s : NodeSession) (g : NodeSession → A → Sent) (o : Option A)
    → ((a : A) → Matches s (g s a) (g (unnumbered s) a))
    → Matches s (if_read x s (g s) o) (if_read x (unnumbered s) (g (unnumbered s)) o)
if_read-Matches x s g none h = (refl, refl)
if_read-Matches x s g (some a) h = h a

when_signalled-Matches :
    {A : Type 0} (x : Slot A) (s : NodeSession) (g : NodeSession → A → Sent)
    → ((a : A) → Matches s (g s a) (g (unnumbered s) a))
    → Matches s (when_signalled x s (g s)) (when_signalled x (unnumbered s) (g (unnumbered s)))
unfolding when_signalled
when_signalled-Matches x s g h =
    if_along (Matches s) x.signalled (if_read-Matches x s g x.value h) (refl, refl)

pub Numbers-publish_relayed : (topic : List ℕ) (qos : Qos) → Numbers (publish_relayed topic qos)
unfolding publish_relayed
Numbers-publish_relayed topic qos x s =
    when_signalled-Matches x s (λ s' up. send (publish s' topic up.bytes qos false) x.rc)
      (λ up. (Alike-publish s topic up.bytes qos false, refl))

pub Numbers-publish_relayed_status : Numbers publish_relayed_status
unfolding publish_relayed_status
Numbers-publish_relayed_status x s =
    when_signalled-Matches x s
      (λ s' st. send (publish s' peer_topic_status (status_text st.online) at_least_once true) x.rc)
      (λ st. (Alike-publish s peer_topic_status (status_text st.online) at_least_once true, refl))

pub Numbers-publish_pending_telemetry : (pb : Nanopb) → Numbers (publish_pending_telemetry pb)
unfolding publish_pending_telemetry
Numbers-publish_pending_telemetry pb x s =
    when_signalled-Matches x s
      (λ s' reading.
        let payload = encode_telemetry pb reading pb.telemetry_size in
        if length payload == 0
        then ([], s', success)
        else send (publish s' s'.config.topic_telemetry payload at_most_once false) x.rc)
      (λ reading.
        if_along (Matches s) (length (encode_telemetry pb reading pb.telemetry_size) == 0)
          (refl, refl) (Alike-publish s _ _ at_most_once false, refl))

Blind-stage :
    {A : Type 0} (f : Slot A → NodeSession → Sent) (x : Slot A) → Numbers f → Blind (stage f x)
unfolding stage
Blind-stage f x numbers s =
    let (same, rc) = numbers x s in
    let both = same ∙ sym (numbers x (unnumbered s)).0 in
    if_along Along (x.ready && is_serving s.state)
      (rw rc (
        if_along Along (is_success (f x (unnumbered s)).2) both
          (Alike-drop (f x s).1 (f x (unnumbered s)).1 true x.noted both)))
      refl

stage_on-same :
    {A : Type 0} (f : Slot A → NodeSession → Sent) (ready : Bool) (i : StageInput) (c : Channel A)
    (s s' : NodeSession)
    → Numbers f
    → Alike s s'
    → let (_, t, d) = stage_on f ready i c s in
      let (_, t', d') = stage_on f ready i c s' in Alike t t' × (d ≡ d')
unfolding stage_on
stage_on-same f ready i c s s' numbers same =
    let x = slot_of ready i c in
    (
      Blind-Alike (stage f x) (Blind-stage f x numbers) s s' same,
      ap (λ (t : NodeSession). if ready && is_serving t.state then (read_events c).1 else c) same,
    )

-- A stage on its channel, for two sessions alike.
pub stage_on-Alike :
    {A : Type 0} (f : Slot A → NodeSession → Sent) (ready ready' : Bool) (i : StageInput)
    (c c' : Channel A) (s s' : NodeSession)
    → Numbers f
    → ready ≡ ready'
    → c ≡ c'
    → Alike s s'
    → let (_, t, d) = stage_on f ready i c s in
      let (_, t', d') = stage_on f ready' i c' s' in Alike t t' × (d ≡ d')
stage_on-Alike f ready ready' i c c' s s' numbers e e' same =
    rw (e, e') (stage_on-same f ready' i c' s s' numbers same)
