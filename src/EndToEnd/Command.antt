-- ===== src/EndToEnd/Command.antt =====
-- A command on its way from a host to the peer, and its answer on the way back, through
-- gateway/src, peer-node/src and shared.
use climate_node.Common.{
  ℕ, ◌≤◌, ◌<◌, ◌^◌, ◌≡◌, refl, true, false, List, [], ◌∷◌, ◌++◌, none, some, length,
}
use climate_node.Zephyr.{Rc, is_success}
use climate_node.Commands.{Node, Command, failed}
use climate_node.Protocol.{Nanopb, IsNanopb}
use climate_node.Protocol.Acks.{host_ack}
use climate_node.Relay.{RelayUp, RelayDown, relay_up_max, publish, chan_relay_ack}
use climate_node.Relay.Threads.{
  tx_addr, rx_fc_addr, reset_ack_received, isotp_send, effect, command_frame, tx_command,
}
use climate_node.Relay.Threads.Sending.{wait_if, reason_for, tx_command-unanswered}
use climate_node.Gateway.{peer_topic_ack, at_least_once, serving, next_id}
use climate_node.Gateway.Incoming.Routes
use climate_node.Gateway.Outgoing.Stages.{message}
use climate_node.Gateway.Channels.{chan_pubs}
use climate_node.Gateway.Loop.{arrive, others_publish, StageInput, World, relay_ack_stage}
use climate_node.Gateway.Loop.Delivery.{PublishesFirst, relay_ack_stage_lem}
use climate_node.EndToEnd.{with_relayed_ack}

-- A command as `main` hands it to the relay.
abbrev pub handed : List ℕ → Command → RelayDown
handed payload cmd = record {
  node_id = 2;
  len = length payload;
  sequence = cmd.sequence;
  bytes = payload;
}

module _ (n : Node) (pb : Nanopb) (law : IsNanopb pb) where
  -- The next look at the Ack channel publishes this on the peer's Ack topic.
  abbrev pub AckOut : StageInput → World n pb → RelayUp → Type 0
  AckOut si w up =
      PublishesFirst true
        (message peer_topic_ack up.bytes at_least_once (next_id w.sessions.peer.next_message_id)
          false)
        (relay_ack_stage n pb true si (with_relayed_ack n pb up w)).0

  ack_out :
      (si : StageInput) (w : World n pb) (up : RelayUp)
      → si.can_read ≡ true
      → w.channels.relay_ack.has_fd ≡ true
      → w.sessions.peer.state ≡ serving
      → AckOut si w up
  unfolding others_publish arrive chan_pubs
  ack_out si w up readable fd serves =
      (relay_ack_stage_lem n pb si (with_relayed_ack n pb up w) readable w.channels.relay_ack up fd
        serves refl).0

  module _ (si : StageInput) (w : World n pb) (fits : pb.ack_size ≤ relay_up_max)
      (readable : si.can_read ≡ true) (fd : w.channels.relay_ack.has_fd ≡ true)
      (serves : w.sessions.peer.state ≡ serving) where
    -- A command whose transfer to the peer fails, or for which the wait ends without the semaphore
    -- having been given, is answered all the same: the sending thread sends it once and publishes one
    -- Ack, and once that is on the Ack channel, the newest message there, the main loop's next look
    -- at the channel, with the peer's session serving, publishes on the peer's Ack topic a message
    -- from which a host reads the command's sequence, FAILED, and that there was no response or, if
    -- the transfer failed, that there is no route to the node. A wait that the Ack for an earlier
    -- command ends is not such a wait.
    pub command_answered_for_peer :
        (down : RelayDown) (send_rc : Rc)
        → down.sequence < 2 ^ 32
        → let waited = wait_if (is_success send_rc) in
          let reason = reason_for (is_success send_rc) in
          (up : RelayUp) × (tx_command pb send_rc false down
            ≡ reset_ack_received
              ∷ isotp_send (command_frame down) tx_addr rx_fc_addr
              ∷ (waited ++ (effect (publish chan_relay_ack up) ∷ [])))
          × AckOut si w up
          × (pb.host_decode_ack up.bytes ≡ some (host_ack down.sequence failed reason none))
    command_answered_for_peer down send_rc small =
        let (up, made, read) = tx_command-unanswered pb law fits down send_rc small in
        (up, made, ack_out si w up readable fd serves, read)
