-- ===== src/Gateway/Lifecycle.antt =====
-- The life of a session in gateway/src/main.cpp: connecting, serving, dropping, and the pass of the
-- main loop over it. Uptimes are inputs.
use climate_node.Common.{
  ℕ, ◌+◌, ◌*◌, Bool, true, false, not, ◌&&◌, List, [], ◌∷◌, ◌++◌, Option, none, some, min, leb,
  ◌==◌, if◌then◌else◌,
}
use climate_node.Common.Decimal.{codes}
use climate_node.Zephyr.{Rc, success, eagain, is_success}
use climate_node.Relay.{RelayStatus}
use climate_node.Gateway.{
  backoff_min_ms, backoff_max_ms, connack_timeout_ms, SessionState, idle, connecting, serving,
  at_least_once, NodeSession, MqttCall, mqtt_connect, mqtt_disconnect, mqtt_abort, client_setup,
  publish, subscribe_to_commands,
}

-- How a session is left.
unfoldable pub hang_up : SessionState → List MqttCall
hang_up serving = mqtt_disconnect ∷ []
hang_up connecting = mqtt_abort ∷ []
hang_up idle = []

abbrev pub drop_backoff : Bool → ℕ → ℕ
drop_backoff reached_connack backoff =
    if reached_connack then backoff_min_ms else min (backoff * 2) backoff_max_ms

unfoldable pub session_drop : NodeSession → Bool → ℕ → List MqttCall × NodeSession
session_drop s reached_connack now =
    let backoff = drop_backoff reached_connack s.backoff_ms in
    (
      hang_up s.state,
      record s { backoff_ms = backoff; state = idle; connected = false; retry_at = now + backoff },
    )

-- `rc` is what `mqtt_connect` returns, `now` the uptime that follows it.
unfoldable pub session_connect : NodeSession → Rc → ℕ → List MqttCall × NodeSession
session_connect s rc now =
    let s' = record s { connected = false; connect_failed = false } in
    let (calls, dropped) = session_drop (record s' { state = idle }) false now in
    if is_success rc
    then (
      mqtt_connect (client_setup s.config) ∷ [],
      record s' { state = connecting; connack_due = now + connack_timeout_ms },
    )
    else (mqtt_connect (client_setup s.config) ∷ calls, dropped)

abbrev pub status_text : Bool → List ℕ
status_text online = if online then codes "online" else codes "offline"

abbrev pub announce : NodeSession → Bool → List MqttCall × NodeSession
announce s online =
    let (call, s') = publish s s.config.topic_status (status_text online) at_least_once true in
    (call ∷ [], s')

abbrev pub announce_peer : NodeSession → Option RelayStatus → List MqttCall × NodeSession
announce_peer s none = ([], s)
announce_peer s (some st) = if st.node_id == 0 then ([], s) else announce s st.online

unfoldable pub session_serving : NodeSession → Option RelayStatus → List MqttCall × NodeSession
session_serving s status =
    let s' = record s { state = serving; backoff_ms = backoff_min_ms } in
    let (calls, s'') = if s.config.is_peer then announce_peer s' status else announce s' true in
    (calls ++ (subscribe_to_commands s'' ∷ []), s'')

-- What `mqtt_evt_handler` does to the session's flags; a PUBLISH is handled apart.
pub data Evt : Type 0 where
  connack : Rc → Evt
  disconnect other_evt : Evt

abbrev pub on_evt : Evt → NodeSession → NodeSession
on_evt (connack rc) s =
    if is_success rc then record s { connected = true } else record s { connect_failed = true }
on_evt disconnect s = record s { connected = false }
on_evt other_evt s = s

unfoldable pub on_evts : List Evt → NodeSession → NodeSession
on_evts [] s = s
on_evts (e ∷ es) s = on_evts es (on_evt e s)

-- One pass of the main loop over a session, up to publishing. The loop runs each stage for both
-- sessions before the next one; none of these stages looks at the other session.
pub record SessionInput : Type 0 where
  pub now : ℕ  -- at the top of the pass
  pub connect_rc : Rc
  pub connect_noted : ℕ
  pub readable : Bool  -- the socket was in the poll set and has input
  pub events : List Evt  -- what `mqtt_input` reports
  pub input_rc : Rc
  pub input_noted : ℕ
  pub later : ℕ  -- after all input
  pub status : Option RelayStatus  -- as `session_serving` reads it, none if it cannot
  pub serving_events : List Evt  -- what the library reports while the session comes to serve
  pub live_rc : Rc
  pub drop_noted : ℕ

abbrev pub is_idle : SessionState → Bool
is_idle idle = true
is_idle _ = false

abbrev pub is_serving : SessionState → Bool
is_serving serving = true
is_serving _ = false

unfoldable pub start : SessionInput → NodeSession → List MqttCall × NodeSession
start i s =
    if is_idle s.state && leb s.retry_at i.now
    then session_connect s i.connect_rc i.connect_noted
    else ([], s)

unfoldable pub take_input : SessionInput → NodeSession → List MqttCall × NodeSession
take_input i s =
    let heard = on_evts i.events s in
    if not (is_idle s.state) && i.readable
    then (if is_success i.input_rc
        then ([], heard)
        else session_drop heard (is_serving heard.state) i.input_noted)
    else ([], s)

abbrev pub tolerated : Rc → Bool
tolerated success = true
tolerated eagain = true
tolerated _ = false

look_after_connecting : SessionInput → NodeSession → List MqttCall × NodeSession
look_after_connecting i s =
    let (calls, served) = session_serving s i.status in
    if s.connected
    then (calls, on_evts i.serving_events served)
    else if s.connect_failed
    then session_drop s false i.drop_noted
    else if leb s.connack_due i.later
    then session_drop s false i.drop_noted
    else ([], s)

look_after_serving : SessionInput → NodeSession → List MqttCall × NodeSession
look_after_serving i s =
    if not s.connected
    then session_drop s true i.drop_noted
    else if tolerated i.live_rc
    then ([], s)
    else session_drop s true i.drop_noted

unfoldable pub look_after_in :
    SessionState → SessionInput → NodeSession → List MqttCall × NodeSession
unfolding look_after_connecting look_after_serving
look_after_in idle i s = ([], s)
look_after_in connecting i s = look_after_connecting i s
look_after_in serving i s = look_after_serving i s

unfoldable pub look_after : SessionInput → NodeSession → List MqttCall × NodeSession
look_after i s = look_after_in s.state i s

unfoldable pub session_pass : SessionInput → NodeSession → List MqttCall × NodeSession
session_pass i s =
    let (c1, s1) = start i s in
    let (c2, s2) = take_input i s1 in let (c3, s3) = look_after i s2 in (c1 ++ (c2 ++ c3), s3)
