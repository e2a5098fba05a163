-- ===== src/Gateway/Loop/Invariant.antt =====
-- What the loop of gateway/src/main.cpp keeps of both sessions, over any number of passes.
use climate_node.Common.{
  ℕ, ◌≤◌, Bool, true, false, ◌&&◌, List, [], ◌∷◌, Option, if_both, ltb, length, ◌==◌,
}
use climate_node.Zephyr.{Rc, is_success}
use climate_node.Commands.{Node, Dedupe, DeviceInfo, AckStatus, Command}
use climate_node.Protocol.{Nanopb, encode_ack}
use climate_node.Gateway.{NodeSession, MqttCall, publish, Qos, at_most_once, at_least_once}
use climate_node.Gateway.Lifecycle.{is_serving, SessionInput}
use climate_node.Gateway.Pass.{Timely, Timely-session_drop, Timely-on_evt}
use climate_node.Gateway.Incoming.{
  Sessions, session_of, with_session, Act, drained, read_failed, PublishEvt, publish_ack,
  forward_to_peer, carry_out, after_reading,
}
use climate_node.Gateway.Loop.{
  is_slot, Event, session_evt, message, World, Part, ◌>>◌, on_session, hear, hear_all, read_socket,
}

module _ (e : ℕ) where
  abbrev pub BothTimely : Sessions → Type 0
  BothTimely ss = Timely e ss.own × Timely e ss.peer

  pub Timely-publish :
      (s : NodeSession) (topic payload : List ℕ) (qos : Qos) (retain : Bool)
      → Timely e s
      → Timely e (publish s topic payload qos retain).1
  unfolding publish
  Timely-publish s topic payload at_most_once retain w = w
  Timely-publish s topic payload at_least_once retain w = w

  pub BothTimely-with_session :
      (which : Bool) (s : NodeSession) (ss : Sessions)
      → Timely e s
      → BothTimely ss
      → BothTimely (with_session which s ss)
  BothTimely-with_session true s ss h w = (w.0, h)
  BothTimely-with_session false s ss h w = (h, w.1)

  pub Timely-session_of :
      (which : Bool) (ss : Sessions) → BothTimely ss → Timely e (session_of which ss)
  Timely-session_of true ss w = w.1
  Timely-session_of false ss w = w.0

  module _ (n : Node) (pb : Nanopb) where
    abbrev SoundActs : List Act × Sessions → Type 0
    SoundActs r = BothTimely r.1

    BothTimely-publish_ack :
        (which : Bool) (topic : List ℕ) (seq : ℕ) (status : AckStatus) (detail : Option (List ℕ))
        (info : Option DeviceInfo) (ss : Sessions)
        → BothTimely ss
        → BothTimely (publish_ack n pb which topic seq status detail info ss).1
    unfolding publish_ack
    BothTimely-publish_ack which topic seq status detail info ss w =
        let s = session_of which ss in
        if_both SoundActs (length (encode_ack pb seq status detail info pb.ack_size) == 0) w (
          BothTimely-with_session which _ ss
            (Timely-publish s topic _ at_least_once false (Timely-session_of which ss w)) w)

    BothTimely-forward_to_peer :
        (payload : List ℕ) (seq : ℕ) (rc : Rc) (ss : Sessions)
        → BothTimely ss
        → BothTimely (forward_to_peer n pb payload seq rc ss).1
    unfolding forward_to_peer
    BothTimely-forward_to_peer payload seq rc ss w =
        if_both SoundActs (ltb 24 (length payload)) (BothTimely-publish_ack _ _ _ _ _ _ ss w)
          (if_both SoundActs (is_success rc) w (BothTimely-publish_ack _ _ _ _ _ _ ss w))

    BothTimely-carry_out :
        (which for_peer : Bool) (decoded : Bool × Command) (payload : List ℕ) (oversized : Bool)
        (rc : Rc) (ss : Sessions) (d : Dedupe) (b : n.Bus)
        → BothTimely ss
        → BothTimely (carry_out n pb which for_peer decoded payload oversized rc ss d b).1
    unfolding carry_out
    BothTimely-carry_out which for_peer (false, cmd) payload oversized rc ss d b w =
        BothTimely-publish_ack _ _ _ _ _ _ ss w
    BothTimely-carry_out which true (true, cmd) payload oversized rc ss d b w =
        BothTimely-forward_to_peer payload cmd.sequence rc ss w
    BothTimely-carry_out which false (true, cmd) payload oversized rc ss d b w =
        BothTimely-publish_ack _ _ _ _ _ _ ss w

    BothTimely-after_reading :
        (which : Bool) (v : PublishEvt) (payload : List ℕ) (rc : Rc) (ss : Sessions) (d : Dedupe)
        (b : n.Bus)
        → BothTimely ss
        → BothTimely (after_reading n pb which v payload rc ss d b).1
    unfolding after_reading
    BothTimely-after_reading which v payload rc ss d b w = BothTimely-carry_out _ _ _ _ _ _ ss d b w

    -- A part of a pass that keeps both sessions timely.
    abbrev pub Keeps : Part n pb → Type 0
    Keeps f = (w : World n pb) → BothTimely w.sessions → BothTimely (f w).1.sessions

    Keeps->> : (f g : Part n pb) → Keeps f → Keeps g → Keeps (◌>>◌ n pb f g)
    Keeps->> f g kf kg w h = kg (f w).1 (kf w h)

    pub Keeps-on_session :
        (which : Bool) (f : NodeSession → List MqttCall × NodeSession)
        → ((s : NodeSession) → Timely e s → Timely e (f s).1)
        → Keeps (on_session n pb which f)
    unfolding on_session
    Keeps-on_session which f k w h =
        BothTimely-with_session which (f (session_of which w.sessions)).1 w.sessions
          (k (session_of which w.sessions) (Timely-session_of which w.sessions h)) h

    Keeps-hear : (which : Bool) (v : Event) → Keeps (hear n pb which v)
    unfolding hear
    Keeps-hear which (session_evt v) w h =
        BothTimely-with_session which _ w.sessions
          (Timely-on_evt v (session_of which w.sessions) e (Timely-session_of which w.sessions h)) h
    Keeps-hear which (message v read_failed rc) w h = h
    Keeps-hear which (message v (drained payload) rc) w h =
        BothTimely-after_reading which v payload rc w.sessions w.dedupe w.bus h

    Keeps-hear_all : (which : Bool) (vs : List Event) → Keeps (hear_all n pb which vs)
    unfolding hear_all
    Keeps-hear_all which [] w h = h
    Keeps-hear_all which (v ∷ vs) w h =
        Keeps->> (hear n pb which v) (hear_all n pb which vs) (Keeps-hear which v)
          (Keeps-hear_all which vs) w h

    abbrev SoundWorld : List Act × World n pb → Type 0
    SoundWorld r = BothTimely r.1.sessions

    pub Keeps-read_socket :
        (which : Bool) (slot : Option ℕ) (i : SessionInput) (vs : List Event)
        → i.input_noted ≤ e
        → Keeps (read_socket n pb which slot i vs)
    unfolding read_socket
    Keeps-read_socket which slot i vs noted w h =
        let heard = (hear_all n pb which vs w).1 in
        let kept = Keeps-hear_all which vs w h in
        let s = session_of which heard.sessions in
        let dropped =
          Timely-session_drop s (is_serving s.state) i.input_noted e noted
            (Timely-session_of which heard.sessions kept) in
        if_both SoundWorld (is_slot slot && i.readable)
          (if_both SoundWorld (is_success i.input_rc) kept
            (BothTimely-with_session which _ heard.sessions dropped kept))
          h
