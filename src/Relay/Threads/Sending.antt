-- ===== src/Relay/Threads/Sending.antt =====
-- The sending thread of gateway/src/relay.cpp, for every way a command can go.
use climate_node.Common.{
  ℕ, ◌≤◌, ◌<◌, ◌^◌, ◌≡◌, refl, ap, Bool, true, false, List, [], ◌∷◌, ◌++◌, map, none, some, arith,
  if◌then◌else◌,
}
use climate_node.Common.Decimal.{codes}
use climate_node.Zephyr.{Rc, is_success}
use climate_node.CanLink.{relay_msg_command}
use climate_node.Commands.{failed}
use climate_node.Protocol.{Nanopb, IsNanopb, IsText}
use climate_node.Protocol.Acks.{host_ack}
use climate_node.Relay.{
  RelayUp, RelayDown, relay_up_max, ack_wait_ms, publish, chan_relay_ack, send_synthetic_ack,
}
use climate_node.Relay.Routing.{send_synthetic_ack_lem}
use climate_node.Relay.Threads.{
  tx_addr, rx_fc_addr, TxAct, reset_ack_received, isotp_send, take_ack_received, effect, await_ack,
  tx_command,
}

-- One Ack is published, from which a host reads this command's failure, for this reason.
abbrev pub FailsWith : Nanopb → RelayDown → List ℕ → List TxAct → Type 0
FailsWith pb cmd reason acts =
    (up : RelayUp) × (acts ≡ effect (publish chan_relay_ack up) ∷ [])
    × (pb.host_decode_ack up.bytes ≡ some (host_ack cmd.sequence failed reason none))

abbrev pub wait_if : Bool → List TxAct
wait_if sent = if sent then take_ack_received ack_wait_ms ∷ [] else []

abbrev pub reason_for : Bool → List ℕ
reason_for sent = if sent then codes "no response over CAN" else codes "no route to node over CAN"

module _ (pb : Nanopb) (law : IsNanopb pb) (fits : pb.ack_size ≤ relay_up_max) where
  fails_with :
      (cmd : RelayDown) (reason : List ℕ)
      → cmd.sequence < 2 ^ 32
      → IsText reason
      → FailsWith pb cmd reason (map effect (send_synthetic_ack pb cmd.sequence reason))
  fails_with cmd reason hs ht =
      let sent = send_synthetic_ack_lem pb law fits cmd.sequence reason hs ht in
      (sent.0, rw (sent.1), sent.2)

  -- How a command ends, by whether the transfer succeeded and whether an Ack came in time.
  abbrev pub Ends : RelayDown → Bool → Bool → List TxAct → Type 0
  Ends cmd false given acts = FailsWith pb cmd (codes "no route to node over CAN") acts
  Ends cmd true true acts = acts ≡ take_ack_received ack_wait_ms ∷ []
  Ends cmd true false acts =
      (late : List TxAct) × (acts ≡ take_ack_received ack_wait_ms ∷ late)
      × FailsWith pb cmd (codes "no response over CAN") late

  command_ending :
      (cmd : RelayDown) (sent given : Bool)
      → cmd.sequence < 2 ^ 32
      → Ends cmd sent given (
          if sent
          then await_ack pb given cmd
          else map effect (send_synthetic_ack pb cmd.sequence (codes "no route to node over CAN")))
  unfolding await_ack
  command_ending cmd false given hs =
      fails_with cmd (codes "no route to node over CAN") hs (omega arith)
  command_ending cmd true true hs = refl
  command_ending cmd true false hs =
      (_, refl, fails_with cmd (codes "no response over CAN") hs (omega arith))

  -- Whatever `isotp_send` returns and whether or not an Ack comes in time: the thread clears the
  -- semaphore, and only then sends the command, once, its bytes unchanged behind the type byte. If
  -- the transfer fails it publishes one Ack, from which a host reads the command's sequence, FAILED
  -- and that there is no route, and does not wait. If it succeeds the thread waits, and publishes
  -- nothing if the Ack comes; if it does not, it publishes one Ack with the sequence, FAILED and that
  -- there was no response.
  pub tx_command_lem :
      (cmd : RelayDown) (send_rc : Rc) (given : Bool)
      → cmd.sequence < 2 ^ 32
      → (more : List TxAct) × (tx_command pb send_rc given cmd
          ≡ reset_ack_received
            ∷ isotp_send (relay_msg_command ∷ cmd.bytes) tx_addr rx_fc_addr
            ∷ more)
        × Ends cmd (is_success send_rc) given more
  unfolding tx_command
  tx_command_lem cmd send_rc given hs = (_, refl, command_ending cmd (is_success send_rc) given hs)

  unanswered_as :
      (cmd : RelayDown) (sent : Bool)
      → cmd.sequence < 2 ^ 32
      → (up : RelayUp) × ((if sent
            then await_ack pb false cmd
            else map effect
                (send_synthetic_ack pb cmd.sequence (codes "no route to node over CAN")))
          ≡ wait_if sent ++ (effect (publish chan_relay_ack up) ∷ []))
        × (pb.host_decode_ack up.bytes ≡ some (host_ack cmd.sequence failed (reason_for sent) none))
  unfolding await_ack
  unanswered_as cmd false hs = fails_with cmd (codes "no route to node over CAN") hs (omega arith)
  unanswered_as cmd true hs =
      let (up, made, read) = fails_with cmd (codes "no response over CAN") hs (omega arith) in
      (up, ap (λ l. take_ack_received ack_wait_ms ∷ l) made, read)

  -- When no Ack comes in time, or the transfer fails, the thread sends the command once and publishes
  -- one Ack, after waiting if the transfer succeeded.
  pub tx_command-unanswered :
      (cmd : RelayDown) (send_rc : Rc)
      → cmd.sequence < 2 ^ 32
      → (up : RelayUp) × (tx_command pb send_rc false cmd
          ≡ reset_ack_received
            ∷ isotp_send (relay_msg_command ∷ cmd.bytes) tx_addr rx_fc_addr
            ∷ (wait_if (is_success send_rc) ++ (effect (publish chan_relay_ack up) ∷ [])))
        × (pb.host_decode_ack up.bytes
            ≡ some (host_ack cmd.sequence failed (reason_for (is_success send_rc)) none))
  unfolding tx_command
  tx_command-unanswered cmd send_rc hs =
      let (up, made, read) = unanswered_as cmd (is_success send_rc) hs in (up, rw (made) refl, read)
