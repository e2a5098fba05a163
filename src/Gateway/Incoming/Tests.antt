-- ===== src/Gateway/Incoming/Tests.antt =====
-- Concrete messages from the broker.
use climate_node.Common.{
  ℕ, ◌≡◌, refl, inl, true, false, none, some, List, [], ◌∷◌, ◌++◌, arith, take, drop, if◌then◌else◌,
}
use climate_node.Common.Decimal.{codes}
use climate_node.Zephyr.{success, ebusy}
use climate_node.Commands.{Command, malformed, failed, no_command_yet, handle_command}
use climate_node.Commands.Sample.{node_two, node_two-HasTexts}
use climate_node.Protocol.Plain.{plain, plain-IsNanopb}
use climate_node.Gateway.{
  session_at_boot, own_config, peer_config, peer_topic_ack, peer_topic_command, at_least_once,
}
use climate_node.Gateway.Incoming.{
  topic_is, Sessions, Act, PublishEvt, puback, after_reading, handle_incoming_publish, info_if,
  Reader, drained,
}
use climate_node.Gateway.Incoming.Draining.{Delivers, handle_incoming_publish_lem}
use climate_node.Gateway.Incoming.Answers.{Publishes}
use climate_node.Gateway.Incoming.Routes.{relay_busy, refuses_payload, executes_command}

-- Sequence 7, TriggerMeasurement.
abbrev trigger_bytes : List ℕ
trigger_bytes = 7 ∷ 11 ∷ 0 ∷ []

abbrev trigger_command : Command
trigger_command = record { schema_version = 1; sequence = 7; which_payload = 11; interval_ms = 0 }

abbrev both : Sessions
both = record { own = session_at_boot own_config; peer = session_at_boot peer_config }

abbrev to_peer : PublishEvt
to_peer = record { topic = peer_topic_command; qos = at_least_once; message_id = 21; len = 3 }

abbrev to_own : PublishEvt
to_own = record to_peer { topic = codes "node/1/command" }

to_peer_topic : topic_is (codes "node/2/command") peer_topic_command ≡ true
unfolding topic_is
to_peer_topic = refl

to_own_topic : topic_is (codes "node/1/command") peer_topic_command ≡ false
unfolding topic_is
to_own_topic = refl

relay_busy_example :
    (acts : List Act) × ((after_reading node_two plain true to_peer trigger_bytes ebusy both
        no_command_yet []).0
      ≡ puback node_two plain true at_least_once 21 ++ acts)
    × Publishes plain acts true peer_topic_ack 7 failed (codes "relay busy") none
relay_busy_example =
    relay_busy node_two plain plain-IsNanopb true to_peer trigger_bytes trigger_command both
      no_command_yet [] ebusy refl to_peer_topic (omega arith) (omega arith) refl (omega arith)

refuses_payload_example :
    let (acts, ss', d', b') =
      after_reading node_two plain false
        (record to_own { len = 129 })
        trigger_bytes
        success
        both
        no_command_yet
        [] in
    (ack : List Act) × (acts ≡ puback node_two plain false at_least_once 21 ++ ack)
    × Publishes plain ack false
        (if topic_is (codes "node/1/command") peer_topic_command
          then peer_topic_ack
          else codes "node/1/ack")
        0
        malformed
        (codes "payload too large")
        none
    × (d' ≡ no_command_yet)
    × (b' ≡ [])
refuses_payload_example =
    refuses_payload node_two plain plain-IsNanopb false (record to_own { len = 129 }) trigger_bytes
      success both no_command_yet [] (inl (omega arith))

executes_command_example :
    let (acts, ss', d', b') =
      after_reading node_two plain false to_own trigger_bytes success both no_command_yet [] in
    let (result, d'', b'') = handle_command node_two trigger_command no_command_yet [] in
    (ack : List Act) × (acts ≡ puback node_two plain false at_least_once 21 ++ ack)
    × Publishes plain ack false
        (codes "node/1/ack")
        7
        result.status
        result.detail
        (info_if node_two plain result)
    × (d' ≡ d'')
    × (b' ≡ b'')
executes_command_example =
    executes_command node_two plain plain-IsNanopb false to_own trigger_bytes trigger_command both
      no_command_yet [] node_two-HasTexts success to_own_topic (omega arith) refl (omega arith)

-- A connection that has received some bytes.
abbrev buffered : Reader
buffered = record { Stream = List ℕ; readall = λ k st. some (take k st, drop k st) }

abbrev buffered_delivers : Delivers buffered
buffered_delivers = record { ahead = λ st. st; reads = λ k st h. (drop k st, refl, refl) }

handle_incoming_publish_lem_example :
    let (acts, ss', d', b') =
      after_reading node_two plain true to_peer trigger_bytes success both no_command_yet [] in
    (st' : List ℕ) × (handle_incoming_publish node_two plain buffered true to_peer
        (7 ∷ 11 ∷ 0 ∷ 48 ∷ [])
        success
        both
        no_command_yet
        []
      ≡ (drained st', acts, ss', d', b'))
    × (st' ≡ 48 ∷ [])
handle_incoming_publish_lem_example =
    handle_incoming_publish_lem buffered buffered_delivers node_two plain true to_peer
      (7 ∷ 11 ∷ 0 ∷ 48 ∷ []) success both no_command_yet [] (omega arith)
