-- ===== src/Commands/Sample.antt =====
-- A node that meets what `IsZbus` and `HasTexts` ask: its queue has room for four messages.
use climate_node.Common.{List, [], ◌∷◌, ◌++◌, arith, ltb, if◌then◌else◌, length}
use climate_node.Common.Decimal.{codes}
use climate_node.Zephyr.{Rc, success, enomsg, ebusy}
use climate_node.AppChannels.{SensorCmd, sensor_cmd_in_range}
use climate_node.Commands.{Node, IsZbus}
use climate_node.Commands.Texts.{HasTexts}

abbrev pub publish_to_four : SensorCmd → List SensorCmd → Rc × List SensorCmd
publish_to_four c q =
    if sensor_cmd_in_range c
    then if ltb (length q) 4 then (success, q ++ (c ∷ [])) else (ebusy, q)
    else (enomsg, q)

abbrev pub node_two : Node
node_two = record {
  Bus = List SensorCmd;
  publish = publish_to_four;
  pending = λ q. q;
  show_rc = λ rc. codes "-16";
  board_name = codes "nucleo_f072rb";
  node_client_id = codes "nucleo-2";
}

pub node_two-IsZbus : IsZbus node_two
node_two-IsZbus = record {
  rejects = λ c b h. ground arith;
  accepts = λ c b h. ground arith;
  queues = λ c b h. ground arith;
  drops = λ c b h. ground arith;
}

pub node_two-HasTexts : HasTexts node_two
node_two-HasTexts = record {
  codes_text = λ rc. omega arith;
  board_text = omega arith;
  client_text = omega arith;
}
