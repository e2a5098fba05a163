-- ===== src/Gateway/Loop/Tests.antt =====
-- The main loop of gateway/src/main.cpp at concrete passes, with both sessions.
use climate_node.Common.{
  ℕ, ◌≡◌, ◌⊎◌, inl, inr, refl, true, false, false, none, some, List, [], ◌∷◌, arith,
}
use climate_node.Commands.{no_command_yet}
use climate_node.Commands.Sample.{node_two}
use climate_node.Protocol.Plain.{plain}
use climate_node.Gateway.Deadline.{Watched, CoversAll, Meets, FitsInt, next_deadline_ms}
use climate_node.Gateway.Channels.{Use, message, look, uses, mailbox, uses-mailbox}
use climate_node.Gateway.Loop.{World, LoopInput, no_news, main_run, start_both}
use climate_node.Gateway.Loop.Invariant.{BothTimely}
use climate_node.Gateway.Loop.Sample.{
  accepted_pass, silent, silent_channels, no_payload, serving_world,
}
use climate_node.Common.Decimal.{All}
use climate_node.Gateway.Loop.Policy.{Kinds, FollowsAct}
use climate_node.AppChannels.{empty_reading}
use climate_node.Relay.{RelayUp}
use climate_node.Gateway.Loop.Policy.Runs.{main_run-FollowsAct}
use climate_node.Gateway.Loop.Runs.{PassedBy, watched, booted, main_run_lem}

abbrev one_pass : World node_two plain
one_pass =
    (main_run node_two plain (accepted_pass ∷ [])
      (booted node_two plain silent_channels no_command_yet [])).1

abbrev next_ones : List Watched
next_ones =
    watched 120 node_two plain (start_both node_two plain accepted_pass one_pass).1.sessions
      (some 60000) (some 60000)

accepted_pass_by : PassedBy 120 accepted_pass
accepted_pass_by = (
  (omega arith, omega arith, omega arith),
  (omega arith, omega arith, omega arith),
  omega arith,
  omega arith,
  omega arith,
  omega arith,
)

main_run_lem_example :
    BothTimely 120 one_pass.sessions
    × CoversAll (next_deadline_ms 121 next_ones) 121 next_ones
    × ((next_deadline_ms 121 next_ones ≡ none)
        ⊎ Meets (next_deadline_ms 121 next_ones) 121 next_ones)
    × FitsInt (next_deadline_ms 121 next_ones)
main_run_lem_example =
    main_run_lem 120 node_two plain (accepted_pass ∷ []) accepted_pass silent_channels
      no_command_yet [] 121 (some 60000) (some 60000) (accepted_pass_by, tt) accepted_pass_by
      (omega arith) (omega arith) (omega arith)

-- Two messages, a look at a channel that cannot be read, one more message, a look during which
-- another one comes, and two more looks: that other message is found twice.
abbrev busy_uses : List (Use ℕ)
busy_uses =
    message 3
    ∷ message 4
    ∷ look [] false
    ∷ message 5
    ∷ look (6 ∷ []) true
    ∷ look [] true
    ∷ look [] true
    ∷ []

uses-mailbox_example : uses busy_uses (silent 0) ≡ none ∷ some 6 ∷ some 6 ∷ none ∷ []
unfolding mailbox
uses-mailbox_example = uses-mailbox busy_uses (silent 0) refl

-- A pass in which the relay publishes an Ack, both sessions serving; and the claims that the messages
-- on the channel of relayed Acks are none or that one, and that those on the others are none.
abbrev relayed_ack : RelayUp
relayed_ack = record { node_id = 2; len = 3; bytes = 8 ∷ 7 ∷ 1 ∷ [] }

abbrev ack_pass : LoopInput
ack_pass = record accepted_pass {
  own_events = [];
  peer_events = [];
  news = record no_news { relay_ack = relayed_ack ∷ [] };
}

abbrev only_that_ack : Kinds
only_that_ack = record {
  reading = λ r. r ≡ empty_reading;
  telemetry = λ up. up ≡ no_payload;
  ack = λ up. (up ≡ no_payload) ⊎ (up ≡ relayed_ack);
}

main_run-FollowsAct_example :
    All
      (FollowsAct plain only_that_ack)
      (main_run node_two plain (ack_pass ∷ ack_pass ∷ []) serving_world).0
main_run-FollowsAct_example =
    main_run-FollowsAct node_two plain only_that_ack (ack_pass ∷ ack_pass ∷ []) serving_world refl
      refl (refl, refl, inl refl)
      ((tt, tt, (inr refl, tt)), (tt, tt, tt), ((tt, tt, (inr refl, tt)), (tt, tt, tt), tt))
