-- ===== src/Gateway/Tests.antt =====
-- The gateway's sessions at concrete passes of the main loop.
use climate_node.Common.{◌≡◌, refl, true, false, none, some, List, [], ◌∷◌, arith}
use climate_node.Zephyr.{success, enetunreach}
use climate_node.AppChannels.{SensorReading, empty_reading}
use climate_node.Relay.{RelayUp}
use climate_node.Gateway.{
  NodeSession, session_at_boot, own_config, peer_config, serving, mqtt_connect, client_setup,
}
use climate_node.Gateway.Lifecycle.{
  SessionInput, connack, session_drop, session_connect, session_pass, start, take_input, look_after,
  look_after_in,
}
use climate_node.Gateway.Reconnect.{reconnects}
use climate_node.Gateway.Deadline.{Watched, due, best_from, nearest, next_deadline_ms}
use climate_node.Gateway.Outgoing.{Slot, PeerSlots}

-- A pass at 100 ms in which the broker takes the connection, and the next, with the CONNACK.
abbrev connects : SessionInput
connects = record {
  now = 100;
  connect_rc = success;
  connect_noted = 120;
  readable = false;
  events = [];
  input_rc = success;
  input_noted = 120;
  later = 130;
  status = none;
  serving_events = [];
  live_rc = success;
  drop_noted = 130;
}

abbrev hears_connack : SessionInput
hears_connack = record connects {
  now = 150;
  connect_noted = 150;
  readable = true;
  events = connack success ∷ [];
  input_noted = 160;
  later = 160;
  drop_noted = 160;
}

abbrev unreachable : SessionInput
unreachable = record connects { connect_rc = enetunreach }

abbrev own : NodeSession
own = session_at_boot own_config

-- A refused connection is retried after twice the shortest backoff.
refused_once : (session_pass unreachable own).1.retry_at ≡ 2120
unfolding session_pass start take_input look_after look_after_in session_connect session_drop
refused_once = refl

reconnects_example : (session_pass connects own).0 ≡ mqtt_connect (client_setup own_config) ∷ []
reconnects_example =
    (reconnects connects hears_connack own refl refl (omega arith) refl refl (omega arith) refl refl
      refl refl).0

-- The own session retries at 5000, the peer's serves with 40 s of its keepalive left.
abbrev two_sessions : List Watched
two_sessions =
    record { session = record own { retry_at = 5000 }; keepalive_left = none }
    ∷ record { session = record own { state = serving }; keepalive_left = some 40000 }
    ∷ []

own_retry_first : next_deadline_ms 3500 two_sessions ≡ some 1500
unfolding next_deadline_ms best_from nearest due
own_retry_first = refl

abbrev serving_peer : NodeSession
serving_peer = record (session_at_boot peer_config) { state = serving; connected = true }

abbrev relayed_up : RelayUp
relayed_up = record { node_id = 2; len = 2; bytes = 8 ∷ 1 ∷ [] }

abbrev news : Slot RelayUp
news = record { ready = true; signalled = true; value = some relayed_up; rc = success; noted = 900 }

abbrev all_news : PeerSlots
all_news = record {
  telemetry = news;
  ack = news;
  status = record {
    ready = true;
    signalled = true;
    value = some (record { node_id = 2; online = true });
    rc = success;
    noted = 900;
  };
}

abbrev lost : PeerSlots
lost = record all_news { telemetry = record news { rc = enetunreach } }

abbrev own_news : Slot SensorReading
own_news = record {
  ready = true;
  signalled = true;
  value = some empty_reading;
  rc = success;
  noted = 900;
}
