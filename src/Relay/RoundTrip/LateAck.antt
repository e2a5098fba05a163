-- ===== src/Relay/RoundTrip/LateAck.antt =====
-- An Ack that comes after the gateway gave its command up, against the comments of
-- gateway/src/relay.cpp and gateway/src/relay.h.
use climate_node.Common.{ℕ, ◌≡◌, refl, [], ◌∷◌}
use climate_node.Relay.RoundTrip.{
  tx_idle, rx_idle, from_peer, synthetic, answered, no_response, System, command, receive, reset,
  deliver, sent, take, expire, relay_ack, give, Reach, booted, next,
}

module _ (p q : ℕ) where
  -- `p` was given up on and then answered; the late Ack released the wait for `q`.
  abbrev late : System
  late = record {
    waiting = [];
    tx = tx_idle;
    rx = rx_idle;
    ack_received = 0;
    unanswered = q ∷ [];
    acks = synthetic p ∷ from_peer p ∷ [];
    accepted = p ∷ q ∷ [];
    verdicts = no_response p ∷ answered q ∷ [];
  }

  given_up_once : Reach (record late {
    waiting = q ∷ [];
    unanswered = p ∷ [];
    acks = synthetic p ∷ [];
    verdicts = no_response p ∷ [];
  })
  given_up_once =
      next
        (next
          (next
            (next (next (next (next booted (command p)) (command q)) (receive p (q ∷ []) refl refl))
              (reset p refl))
            (deliver p refl))
          (sent p refl))
        (expire p refl refl)

  late_reached : Reach late
  late_reached =
      next
        (next
          (next
            (next
              (next (next (next given_up_once (receive q [] refl refl)) (reset q refl))
                (relay_ack [] p [] refl refl))
              (give refl))
            (deliver q refl))
          (sent q refl))
        (take q refl refl)

  -- For any two commands, the threads can come to a state in which the first has two Acks on its
  -- channel, one made up and one from the peer, and the second is taken to be answered although the
  -- peer has it unanswered and no Ack for it was published: the reset of the semaphore before the
  -- send does not keep a late Ack from satisfying the next command's wait.
  pub late_ack_satisfies_next :
      (s : System) × Reach s
      × (s.acks ≡ synthetic p ∷ from_peer p ∷ [])
      × (s.verdicts ≡ no_response p ∷ answered q ∷ [])
      × (s.unanswered ≡ q ∷ [])
  late_ack_satisfies_next = (late, late_reached, refl, refl, refl)
