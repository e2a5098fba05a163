-- ===== src/Gateway/Loop/Alone/Tests.antt =====
-- Each session's view of a concrete pass of the main loop of gateway/src/main.cpp.
use climate_node.Common.{refl, false, List, [], ◌∷◌, map}
use climate_node.Commands.{no_command_yet}
use climate_node.Commands.Sample.{node_two}
use climate_node.Protocol.Plain.{plain}
use climate_node.Zephyr.{success}
use climate_node.Gateway.Lifecycle.{connack, start, session_connect, take_input, on_evts}
use climate_node.Gateway.Loop.{LoopInput, main_run}
use climate_node.Gateway.Loop.Runs.{booted}
use climate_node.Gateway.Loop.Sample.{accepted_pass, silent_channels, serving_world}
use climate_node.Gateway.Loop.Alone.{OwnSide, own_input, own_run, PeerSide, peer_input, peer_run}
use climate_node.Gateway.Loop.Alone.Sides.{OwnSees, PeerSees}
use climate_node.Gateway.Loop.Alone.Runs.{main_run-sides}
use climate_node.Gateway.Loop.Alone.Heard.{ServedRightly, main_run-accepted}

abbrev one_pass : List LoopInput
one_pass = accepted_pass ∷ []

abbrev own_serving : OwnSide
own_serving = record { session = serving_world.sessions.own; telemetry = silent_channels.telemetry }

abbrev peer_serving : PeerSide
peer_serving = record {
  session = serving_world.sessions.peer;
  telemetry = silent_channels.relay_telemetry;
  ack = silent_channels.relay_ack;
  status = silent_channels.relay_status;
}

main_run-sides_example :
    let w = (main_run node_two plain one_pass serving_world).1 in
    OwnSees node_two plain w (own_run plain (map own_input one_pass) own_serving)
    × PeerSees node_two plain w (peer_run (map peer_input one_pass) peer_serving)
main_run-sides_example =
    main_run-sides node_two plain one_pass serving_world own_serving peer_serving (refl, refl)
      (refl, refl, refl, refl)

main_run-accepted_example :
    let ss =
      (main_run node_two plain one_pass
        (booted node_two plain silent_channels no_command_yet [])).1.sessions in
    ServedRightly (connack success ∷ []) false ss.own
    × ServedRightly (connack success ∷ []) false ss.peer
unfolding start session_connect take_input on_evts
main_run-accepted_example =
    main_run-accepted node_two plain one_pass silent_channels no_command_yet []
