-- ===== src/Gateway/Loop/Alone/Parts.antt =====
-- What the parts of a pass of gateway/src/main.cpp that read a socket do to each of the two sessions.
use climate_node.Common.{
  ℕ, ◌≡◌, refl, ap, ◌∙◌, subst, Bool, true, false, not, ◌&&◌, List, [], ◌∷◌, Option, if_both,
  if_along, length, ◌==◌, ltb,
}
use climate_node.Zephyr.{Rc, is_success}
use climate_node.Commands.{Node, Dedupe, DeviceInfo, AckStatus, Command}
use climate_node.Protocol.{Nanopb, encode_ack}
use climate_node.Relay.{relay_down_max}
use climate_node.Gateway.{NodeSession, MqttCall, at_least_once}
use climate_node.Gateway.Lifecycle.{
  session_drop, on_evt, on_evts, SessionInput, is_idle, is_serving, take_input,
}
use climate_node.Gateway.Incoming.{
  Sessions, session_of, with_session, Act, drained, read_failed, PublishEvt, publish_ack,
  forward_to_peer, carry_out, after_reading,
}
use climate_node.Gateway.Loop.{
  is_slot, Event, session_evt, message, World, set_session, hear, hear_all, read_socket,
}
use climate_node.Gateway.Loop.Alone.{session_evts}
use climate_node.Gateway.Loop.Alone.Blind.{Alike, Alike-publish, Alike-on_evts, Alike-drop}

-- Both sessions alike.
abbrev pub BothAlike : Sessions → Sessions → Type 0
BothAlike ss ss' = Alike ss.own ss'.own × Alike ss.peer ss'.peer

pub BothAlike-with_session :
    (which : Bool) (s s' : NodeSession) (ss ss' : Sessions)
    → Alike s s'
    → BothAlike ss ss'
    → BothAlike (with_session which s ss) (with_session which s' ss')
BothAlike-with_session true s s' ss ss' same both = (both.0, same)
BothAlike-with_session false s s' ss ss' same both = (same, both.1)

Alike-session_of :
    (which : Bool) (ss ss' : Sessions)
    → BothAlike ss ss'
    → Alike (session_of which ss) (session_of which ss')
Alike-session_of true ss ss' both = both.1
Alike-session_of false ss ss' both = both.0

BothAlike-trans :
    (ss ss' ss'' : Sessions) → BothAlike ss ss' → BothAlike ss' ss'' → BothAlike ss ss''
BothAlike-trans ss ss' ss'' h h' = (h.0 ∙ h'.0, h.1 ∙ h'.1)

-- Putting a session back that is alike.
with_session-back :
    (which : Bool) (s : NodeSession) (ss : Sessions)
    → Alike s (session_of which ss)
    → BothAlike (with_session which s ss) ss
with_session-back true s ss same = (refl, same)
with_session-back false s ss same = (same, refl)

with_session-twice :
    (which : Bool) (s t : NodeSession) (ss : Sessions)
    → with_session which s (with_session which t ss) ≡ with_session which s ss
with_session-twice true s t ss = refl
with_session-twice false s t ss = refl

with_session-same :
    (which : Bool) (ss : Sessions) → BothAlike ss (with_session which (session_of which ss) ss)
with_session-same true ss = (refl, refl)
with_session-same false ss = (refl, refl)

session_of-with_session :
    (which : Bool) (s : NodeSession) (ss : Sessions)
    → session_of which (with_session which s ss) ≡ s
session_of-with_session true s ss = refl
session_of-with_session false s ss = refl

module _ (n : Node) (pb : Nanopb) where
  publish_ack-BothAlike :
      (which : Bool) (topic : List ℕ) (seq : ℕ) (status : AckStatus) (detail : Option (List ℕ))
      (info : Option DeviceInfo) (ss : Sessions)
      → BothAlike (publish_ack n pb which topic seq status detail info ss).1 ss
  unfolding publish_ack
  publish_ack-BothAlike which topic seq status detail info ss =
      if_both (λ (r : List Act × Sessions). BothAlike r.1 ss)
        (length (encode_ack pb seq status detail info pb.ack_size) == 0) (refl, refl)
        (with_session-back which _ ss
          (Alike-publish (session_of which ss) topic _ at_least_once false))

  forward_to_peer-BothAlike :
      (payload : List ℕ) (seq : ℕ) (rc : Rc) (ss : Sessions)
      → BothAlike (forward_to_peer n pb payload seq rc ss).1 ss
  unfolding forward_to_peer
  forward_to_peer-BothAlike payload seq rc ss =
      if_both (λ (r : List Act × Sessions). BothAlike r.1 ss) (ltb relay_down_max (length payload))
        (publish_ack-BothAlike _ _ _ _ _ _ ss)
        (if_both (λ (r : List Act × Sessions). BothAlike r.1 ss) (is_success rc) (refl, refl)
          (publish_ack-BothAlike _ _ _ _ _ _ ss))

  carry_out-BothAlike :
      (which for_peer : Bool) (decoded : Bool × Command) (payload : List ℕ) (oversized : Bool)
      (rc : Rc) (ss : Sessions) (d : Dedupe) (b : n.Bus)
      → BothAlike (carry_out n pb which for_peer decoded payload oversized rc ss d b).1 ss
  unfolding carry_out
  carry_out-BothAlike which for_peer (false, cmd) payload oversized rc ss d b =
      publish_ack-BothAlike _ _ _ _ _ _ ss
  carry_out-BothAlike which true (true, cmd) payload oversized rc ss d b =
      forward_to_peer-BothAlike payload cmd.sequence rc ss
  carry_out-BothAlike which false (true, cmd) payload oversized rc ss d b =
      publish_ack-BothAlike _ _ _ _ _ _ ss

  after_reading-BothAlike :
      (which : Bool) (v : PublishEvt) (payload : List ℕ) (rc : Rc) (ss : Sessions) (d : Dedupe)
      (b : n.Bus)
      → BothAlike (after_reading n pb which v payload rc ss d b).1 ss
  unfolding after_reading
  after_reading-BothAlike which v payload rc ss d b = carry_out-BothAlike _ _ _ _ _ _ ss d b

  -- The sessions once the one of them has had some events.
  abbrev heard_by : Bool → List Event → Sessions → Sessions
  heard_by which es ss = with_session which (on_evts (session_evts es) (session_of which ss)) ss

  -- The sessions are these, give or take their counters, and the channels are untouched.
  abbrev pub Leaves : Sessions → World n pb → World n pb → Type 0
  Leaves ss w w' = BothAlike w'.sessions ss × (w'.channels ≡ w.channels)

  BothAlike-heard_by :
      (which : Bool) (es : List Event) (ss ss' : Sessions)
      → BothAlike ss ss'
      → BothAlike (heard_by which es ss) (heard_by which es ss')
  BothAlike-heard_by which es ss ss' both =
      BothAlike-with_session which _ _ ss ss'
        (Alike-on_evts (session_evts es) _ _ (Alike-session_of which ss ss' both)) both

  heard_by-cons :
      (which : Bool) (e : _) (es : List Event) (ss : Sessions)
      → heard_by which es (with_session which (on_evt e (session_of which ss)) ss)
        ≡ heard_by which (session_evt e ∷ es) ss
  unfolding on_evts
  heard_by-cons true e es ss = refl
  heard_by-cons false e es ss = refl

  hear_all-Leaves :
      (which : Bool) (es : List Event) (w : World n pb)
      → Leaves (heard_by which es w.sessions) w (hear_all n pb which es w).1
  unfolding hear_all hear on_evts
  hear_all-Leaves true [] w = ((refl, refl), refl)
  hear_all-Leaves false [] w = ((refl, refl), refl)
  hear_all-Leaves which (session_evt e ∷ es) w =
      let next : World n pb = set_session n pb which (on_evt e (session_of which w.sessions)) w in
      let rest = hear_all-Leaves which es next in
      (
        subst (BothAlike (hear_all n pb which es next).1.sessions)
            (heard_by-cons which e es w.sessions) rest.0,
        rest.1,
      )
  hear_all-Leaves which (message e read_failed rc ∷ es) w = hear_all-Leaves which es w
  hear_all-Leaves which (message e (drained payload) rc ∷ es) w =
      let next : World n pb = (hear n pb which (message e (drained payload) rc) w).1 in
      let rest = hear_all-Leaves which es next in
      let same = after_reading-BothAlike which e payload rc w.sessions w.dedupe w.bus in
      let onwards = BothAlike-heard_by which es next.sessions w.sessions same in
      let after : Sessions = (hear_all n pb which es next).1.sessions in
      (
        BothAlike-trans after (heard_by which es next.sessions) (heard_by which es w.sessions)
            rest.0 onwards,
        rest.1,
      )

  -- The sessions once the one of them has read its socket.
  abbrev pub read_by : Bool → SessionInput → List Event → Sessions → Sessions
  read_by which i es ss =
      with_session which
        (take_input (record i { events = session_evts es }) (session_of which ss)).1 ss

  pub read_socket-Leaves :
      (which : Bool) (slot : Option ℕ) (i : SessionInput) (es : List Event) (w : World n pb)
      → is_slot slot ≡ not (is_idle (session_of which w.sessions).state)
      → Leaves (read_by which i es w.sessions) w (read_socket n pb which slot i es w).1
  unfolding read_socket take_input
  read_socket-Leaves which slot i es w polled =
      let heard : World n pb = (hear_all n pb which es w).1 in
      let told = hear_all-Leaves which es w in
      let s = session_of which heard.sessions in
      let t = on_evts (session_evts es) (session_of which w.sessions) in
      let same : Alike s t =
        subst (Alike s) (session_of-with_session which t w.sessions)
          (Alike-session_of which heard.sessions (heard_by which es w.sessions) told.0) in
      let serves : is_serving s.state ≡ is_serving t.state = ap (λ x. is_serving x.state) same in
      let s' = (session_drop s (is_serving t.state) i.input_noted).1 in
      let t' = (session_drop t (is_serving t.state) i.input_noted).1 in
      let dropped : BothAlike (with_session which s' heard.sessions)
          (with_session which t' w.sessions) =
        subst (BothAlike (with_session which s' heard.sessions))
          (with_session-twice which t' t w.sessions)
          (BothAlike-with_session which s' t' heard.sessions (heard_by which es w.sessions)
            (Alike-drop s t _ i.input_noted same) told.0) in
      rw (polled, serves)
        (if_along
          (λ (x : List Act × World n pb) (r : List MqttCall × NodeSession).
            Leaves (with_session which r.1 w.sessions) w x.1)
          (not (is_idle (session_of which w.sessions).state) && i.readable)
          (if_along
            (λ (x : List Act × World n pb) (r : List MqttCall × NodeSession).
              Leaves (with_session which r.1 w.sessions) w x.1)
            (is_success i.input_rc) told (dropped, told.1))
          (with_session-same which w.sessions, refl))
