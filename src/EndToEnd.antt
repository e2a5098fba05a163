-- ===== src/EndToEnd.antt =====
-- The programs together, along the ways that data takes through them: gateway/src, peer-node/src and
-- shared. ISO-TP, zbus and the MQTT library hand each payload on whole.
pub mod Telemetry
pub mod Command
pub mod Presence
pub mod Pace
pub mod Status
pub mod Interval
mod Tests
use climate_node.Common.{List, [], ◌∷◌}
use climate_node.AppChannels.{SensorReading}
use climate_node.Commands.{Node}
use climate_node.Protocol.{Nanopb}
use climate_node.Relay.{RelayUp, RelayStatus}
use climate_node.Gateway.Loop.{no_news, World, others_publish}

-- The gateway once one more message is on a channel.
module _ (n : Node) (pb : Nanopb) where
  abbrev pub with_reading : SensorReading → World n pb → World n pb
  with_reading r w = (others_publish n pb (record no_news { telemetry = r ∷ [] }) w).1

  abbrev pub with_relayed_telemetry : RelayUp → World n pb → World n pb
  with_relayed_telemetry up w =
      (others_publish n pb (record no_news { relay_telemetry = up ∷ [] }) w).1

  abbrev pub with_relayed_ack : RelayUp → World n pb → World n pb
  with_relayed_ack up w = (others_publish n pb (record no_news { relay_ack = up ∷ [] }) w).1

  abbrev pub with_statuses : List RelayStatus → World n pb → World n pb
  with_statuses sts w = (others_publish n pb (record no_news { relay_status = sts }) w).1
