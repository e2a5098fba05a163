-- ===== src/Gateway/Loop/Policy/Sessions.antt =====
-- The policy for the operations on one session of gateway/src/main.cpp.
use climate_node.Common.{
  ℕ, inl, inr, refl, Bool, true, false, not, ◌&&◌, List, [], ◌∷◌, Option, none, some, arith,
  if_both, ◌==◌, leb,
}
use climate_node.Common.Decimal.{All, All-append}
use climate_node.Zephyr.{Rc, is_success}
use climate_node.Protocol.{Nanopb}
use climate_node.Relay.{RelayStatus}
use climate_node.Gateway.{
  at_most_once, at_least_once, idle, connecting, serving, NodeSession, MqttCall, publish,
  SessionState, backoff_min_ms,
}
use climate_node.Gateway.Lifecycle.{
  status_text, announce, announce_peer, session_drop, hang_up, session_connect, session_serving,
  Evt, connack, disconnect, other_evt, on_evt, on_evts, SessionInput, start, look_after,
  look_after_in, is_idle, tolerated,
}
use climate_node.Gateway.Loop.Policy.{
  Kinds, TelemetryOn, AckOn, StatusOn, Follows, HasTopics, IsPacketId-next_id,
}

module _ (pb : Nanopb) (kinds : Kinds) where
  -- The policy for the messages of some kinds.
  abbrev pub Sends : MqttCall → Type 0
  Sends = Follows pb kinds

  -- Calls that follow the policy, and a session that still has its topics.
  abbrev pub Sound : List MqttCall × NodeSession → Type 0
  Sound (calls, s) = All Sends calls × HasTopics s.config

  module _ (s : NodeSession) (payload : List ℕ) (topics : HasTopics s.config) where
    pub publish-IsTelemetry :
        (topic : List ℕ)
        → TelemetryOn pb kinds topic payload
        → let (c, s') = publish s topic payload at_most_once false in Sends c × HasTopics s'.config
    unfolding publish
    publish-IsTelemetry topic h = (inl (h, refl, refl, refl), topics)

    pub publish-IsAck :
        (topic : List ℕ)
        → AckOn pb kinds topic payload
        → let (c, s') = publish s topic payload at_least_once false in Sends c × HasTopics s'.config
    unfolding publish
    publish-IsAck topic h =
        (inr (inl (h, refl, refl, IsPacketId-next_id s.next_message_id)), topics)

    pub publish-IsStatus :
        (topic : List ℕ)
        → StatusOn pb kinds topic payload
        → let (c, s') = publish s topic payload at_least_once true in Sends c × HasTopics s'.config
    unfolding publish
    publish-IsStatus topic h =
        (inr (inr (h, refl, refl, IsPacketId-next_id s.next_message_id)), topics)

  hang_up-Follows : (state : SessionState) → All Sends (hang_up state)
  unfolding hang_up
  hang_up-Follows idle = tt
  hang_up-Follows connecting = (tt, tt)
  hang_up-Follows serving = (tt, tt)

  pub Sound-session_drop :
      (s : NodeSession) (reached : Bool) (noted : ℕ)
      → HasTopics s.config
      → Sound (session_drop s reached noted)
  unfolding session_drop
  Sound-session_drop s reached noted h = (hang_up-Follows s.state, h)

  Sound-session_connect :
      (s : NodeSession) (rc : Rc) (noted : ℕ)
      → HasTopics s.config
      → Sound (session_connect s rc noted)
  unfolding session_connect
  Sound-session_connect s rc noted h =
      if_both Sound (is_success rc) (((h.2, refl, refl), tt), h)
        (let s' = record s { connected = false; connect_failed = false; state = idle } in
          let dropped = Sound-session_drop s' false noted h in
          (((h.2, refl, refl), dropped.0), dropped.1))

  pub HasTopics-on_evt :
      (e : Evt) (s : NodeSession) → HasTopics s.config → HasTopics (on_evt e s).config
  HasTopics-on_evt (connack rc) s h =
      if_both (λ (t : NodeSession). HasTopics t.config) (is_success rc) h h
  HasTopics-on_evt disconnect s h = h
  HasTopics-on_evt other_evt s h = h

  HasTopics-on_evts :
      (es : List Evt) (s : NodeSession) → HasTopics s.config → HasTopics (on_evts es s).config
  unfolding on_evts
  HasTopics-on_evts [] s h = h
  HasTopics-on_evts (e ∷ es) s h = HasTopics-on_evts es (on_evt e s) (HasTopics-on_evt e s h)

  Sound-announce :
      (s : NodeSession) (online : Bool) → HasTopics s.config → Sound (announce s online)
  Sound-announce s online h =
      let out =
        publish-IsStatus s (status_text online) h s.config.topic_status (h.2, online, refl) in
      ((out.0, tt), out.1)

  Sound-announce_peer :
      (s : NodeSession) (status : Option RelayStatus)
      → HasTopics s.config
      → Sound (announce_peer s status)
  Sound-announce_peer s none h = (tt, h)
  Sound-announce_peer s (some st) h =
      if_both Sound (st.node_id == 0) (tt, h) (Sound-announce s st.online h)

  Sound-session_serving :
      (s : NodeSession) (status : Option RelayStatus)
      → HasTopics s.config
      → Sound (session_serving s status)
  unfolding session_serving
  Sound-session_serving s status h =
      let s' = record s { state = serving; backoff_ms = backoff_min_ms } in
      let told =
        if_both Sound s.config.is_peer (Sound-announce_peer s' status h)
          (Sound-announce s' true h) in
      (All-append Sends _ _ told.0 ((omega arith, omega arith), tt), told.1)

  pub Sound-start : (i : SessionInput) (s : NodeSession) → HasTopics s.config → Sound (start i s)
  unfolding start
  Sound-start i s h =
      if_both Sound (is_idle s.state && leb s.retry_at i.now)
        (Sound-session_connect s i.connect_rc i.connect_noted h) (tt, h)

  Sound-look_after_in :
      (state : SessionState) (i : SessionInput) (s : NodeSession)
      → HasTopics s.config
      → Sound (look_after_in state i s)
  unfolding look_after_in
  Sound-look_after_in idle i s h = (tt, h)
  Sound-look_after_in connecting i s h =
      let served = Sound-session_serving s i.status h in
      let dropped = Sound-session_drop s false i.drop_noted h in
      if_both Sound s.connected (served.0, HasTopics-on_evts i.serving_events _ served.1)
        (if_both Sound s.connect_failed dropped
          (if_both Sound (leb s.connack_due i.later) dropped (tt, h)))
  Sound-look_after_in serving i s h =
      let dropped = Sound-session_drop s true i.drop_noted h in
      if_both Sound (not s.connected) dropped (if_both Sound (tolerated i.live_rc) (tt, h) dropped)

  pub Sound-look_after :
      (i : SessionInput) (s : NodeSession) → HasTopics s.config → Sound (look_after i s)
  unfolding look_after
  Sound-look_after i s h = Sound-look_after_in s.state i s h
