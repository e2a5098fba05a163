-- ===== src/Gateway/Loop/Alone.antt =====
-- The loop in `main` of gateway/src/main.cpp as each of its sessions sees it: what one pass does to
-- the one session and to its channels, from the inputs that concern them.
pub mod Blind
pub mod Parts
pub mod Sides
pub mod Runs
pub mod Accepted
pub mod Heard
mod Tests
use climate_node.Common.{Bool, ◌&&◌, List, [], ◌∷◌, if◌then◌else◌}
use climate_node.AppChannels.{SensorReading}
use climate_node.Protocol.{Nanopb}
use climate_node.Relay.{RelayUp, RelayStatus}
use climate_node.Gateway.{
  peer_topic_telemetry, peer_topic_ack, at_most_once, at_least_once, NodeSession,
}
use climate_node.Gateway.Lifecycle.{Evt, SessionInput, is_serving, start, take_input, look_after}
use climate_node.Gateway.Outgoing.{
  publish_pending_telemetry, publish_relayed, publish_relayed_status,
}
use climate_node.Gateway.Channels.{Channel, chan_pubs, has_events, chan_read}
use climate_node.Gateway.Loop.{Event, session_evt, message, StageInput, LoopInput, stage_on}

-- A PUBLISH is no event of the session's life.
abbrev pub session_evts : List Event → List Evt
session_evts [] = []
session_evts (session_evt e ∷ es) = e ∷ session_evts es
session_evts (message e payload rc ∷ es) = session_evts es

pub record OwnInput : Type 0 where
  pub session : SessionInput
  pub events : List Event
  pub news : List SensorReading
  pub polls : Bool
  pub late_news : List SensorReading
  pub telemetry : StageInput

abbrev pub own_input : LoopInput → OwnInput
own_input i = record {
  session = i.own;
  events = i.own_events;
  news = i.news.telemetry;
  polls = i.polls;
  late_news = i.late_news.telemetry;
  telemetry = i.telemetry;
}

pub record OwnSide : Type 0 where
  pub session : NodeSession
  pub telemetry : Channel SensorReading

-- Before the poll, and after one that found the events of `x`.
abbrev pub own_start : OwnInput → OwnSide → OwnSide
own_start i x = record {
  session = (start i.session x.session).1;
  telemetry = chan_pubs i.news x.telemetry;
}

abbrev pub own_kept : OwnInput → NodeSession → NodeSession
own_kept i s =
    let heard = (take_input (record i.session { events = session_evts i.events }) s).1 in
    (look_after i.session heard).1

unfoldable pub own_publish : Nanopb → OwnInput → OwnSide → OwnSide
own_publish pb i x =
    let (_, s, telemetry) =
      stage_on (publish_pending_telemetry pb) (is_serving x.session.state && has_events x.telemetry)
        i.telemetry (chan_pubs i.late_news x.telemetry) (own_kept i x.session) in
    record { session = s; telemetry = telemetry }

unfoldable pub own_pass : Nanopb → OwnInput → OwnSide → OwnSide
own_pass pb i x = let y = own_start i x in if i.polls then own_publish pb i y else y

unfoldable pub own_run : Nanopb → List OwnInput → OwnSide → OwnSide
own_run pb [] x = x
own_run pb (i ∷ is) x = own_run pb is (own_pass pb i x)

pub record RelayNews : Type 0 where
  pub telemetry : List RelayUp
  pub ack : List RelayUp
  pub status : List RelayStatus

pub record PeerInput : Type 0 where
  pub session : SessionInput
  pub events : List Event
  pub news : RelayNews
  pub polls : Bool
  pub late_news : RelayNews
  pub can_read_status : Bool
  pub telemetry : StageInput
  pub ack : StageInput
  pub status : StageInput

abbrev pub peer_input : LoopInput → PeerInput
peer_input i = record {
  session = i.peer;
  events = i.peer_events;
  news = record {
    telemetry = i.news.relay_telemetry;
    ack = i.news.relay_ack;
    status = i.news.relay_status;
  };
  polls = i.polls;
  late_news = record {
    telemetry = i.late_news.relay_telemetry;
    ack = i.late_news.relay_ack;
    status = i.late_news.relay_status;
  };
  can_read_status = i.can_read_status;
  telemetry = i.relay_telemetry;
  ack = i.relay_ack;
  status = i.relay_status;
}

pub record PeerSide : Type 0 where
  pub session : NodeSession
  pub telemetry : Channel RelayUp
  pub ack : Channel RelayUp
  pub status : Channel RelayStatus

abbrev pub hear_relay : RelayNews → PeerSide → PeerSide
hear_relay n x = record x {
  telemetry = chan_pubs n.telemetry x.telemetry;
  ack = chan_pubs n.ack x.ack;
  status = chan_pubs n.status x.status;
}

abbrev pub peer_start : PeerInput → PeerSide → PeerSide
peer_start i x = hear_relay i.news (record x { session = (start i.session x.session).1 })

abbrev pub peer_kept : PeerInput → PeerSide → NodeSession
peer_kept i x =
    let heard = (take_input (record i.session { events = session_evts i.events }) x.session).1 in
    (look_after (record i.session { status = chan_read i.can_read_status x.status }) heard).1

unfoldable pub peer_publish : PeerInput → PeerSide → PeerSide
peer_publish i x =
    let y = hear_relay i.late_news x in
    let was = is_serving x.session.state in
    let (_, s1, telemetry) =
      stage_on (publish_relayed peer_topic_telemetry at_most_once) (was && has_events x.telemetry)
        i.telemetry y.telemetry (peer_kept i x) in
    let (_, s2, ack) =
      stage_on (publish_relayed peer_topic_ack at_least_once) (was && has_events x.ack) i.ack y.ack
        s1 in
    let (_, s3, status) =
      stage_on publish_relayed_status (was && has_events x.status) i.status y.status s2 in
    record { session = s3; telemetry = telemetry; ack = ack; status = status }

unfoldable pub peer_pass : PeerInput → PeerSide → PeerSide
peer_pass i x = let y = peer_start i x in if i.polls then peer_publish i y else y

unfoldable pub peer_run : List PeerInput → PeerSide → PeerSide
peer_run [] x = x
peer_run (i ∷ is) x = peer_run is (peer_pass i x)
