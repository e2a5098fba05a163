-- ===== src/Relay/Tests.antt =====
-- The relay at concrete histories, payloads and interleavings.
use climate_node.Common.{◌≡◌, ◌≤◌, refl, true, false, none, some, inl, inr, List, [], ◌∷◌, arith}
use climate_node.CanLink.{heartbeat_unpack}
use climate_node.Relay.{CanFrame, liveness_step, drain_heartbeats}
use climate_node.Relay.Liveness.{
  Look, announced, listening_since, last_evidence, heard, last_look, retained, Alternates,
}
use climate_node.Relay.Routing.{AnyValid}
use climate_node.Relay.Threads.{RxInput, rx_run, rx_at_loop}
use climate_node.Relay.Threads.Receiving.{relayed_of, relay_all, statuses, rx_run_lem}
use climate_node.Relay.RoundTrip.{
  tx_waiting, from_peer, synthetic, answered, no_response, System, boot_state, rx_idle,
  rx_published, command, receive, reset, deliver, sent, relay_ack, give, Reach, tx_received,
}
use climate_node.Relay.RoundTrip
use climate_node.Relay.RoundTrip.Accounting.{
  IsInOrder, IsMadeUp, answers, peer_acks, Reach-accounts,
}
use climate_node.Relay.RoundTrip.LateAck.{late_ack_satisfies_next}
use climate_node.Relay.RoundTrip.Prompt
use climate_node.Relay.RoundTrip.Prompt.{PromptReach, latest, wait_ends_by_own_ack}

-- A beat a second after boot, then silence for four seconds.
abbrev looks : List Look
looks =
    record { seen = false; now = 600 }
    ∷ record { seen = true; now = 1000 }
    ∷ record { seen = false; now = 4400 }
    ∷ record { seen = false; now = 5000 }
    ∷ []

beats_then_silence : announced 3500 (listening_since 500) looks ≡ true ∷ false ∷ []
unfolding announced liveness_step
beats_then_silence = refl

abbrev wrong_version : CanFrame
wrong_version = record { frame_data = 2 ∷ 2 ∷ 9 ∷ 0 ∷ 0 ∷ 0 ∷ 7 ∷ 255 ∷ []; byte_count = 8 }

abbrev running_beat : CanFrame
running_beat = record { frame_data = 1 ∷ 2 ∷ 9 ∷ 0 ∷ 0 ∷ 0 ∷ 7 ∷ 255 ∷ []; byte_count = 8 }

wrong_version_is_no_life : drain_heartbeats (wrong_version ∷ []) ≡ false
unfolding drain_heartbeats heartbeat_unpack
wrong_version_is_no_life = refl

-- The thread has sent command 7, and the peer's Ack has released it.
abbrev released : System
released = record boot_state {
  tx = tx_waiting 7;
  ack_received = 1;
  acks = from_peer 7 ∷ [];
  accepted = 7 ∷ [];
}

released_reached : Reach released
released_reached =
    RoundTrip.next
      (RoundTrip.next
        (RoundTrip.next
          (RoundTrip.next
            (RoundTrip.next
              (RoundTrip.next (RoundTrip.next RoundTrip.booted (command 7))
                (receive 7 [] refl refl))
              (reset 7 refl))
            (deliver 7 refl))
          (sent 7 refl))
        (relay_ack [] 7 [] refl refl))
      (give refl)

Reach-accounts_example :
    IsInOrder released × IsMadeUp released × (answers released.verdicts ≤ peer_acks released.acks)
Reach-accounts_example = Reach-accounts released_reached

late_ack_satisfies_next_example :
    (s : System) × Reach s
    × (s.acks ≡ synthetic 1 ∷ from_peer 1 ∷ [])
    × (s.verdicts ≡ no_response 1 ∷ answered 2 ∷ [])
    × (s.unanswered ≡ 2 ∷ [])
late_ack_satisfies_next_example = late_ack_satisfies_next 1 2

released_promptly : PromptReach released
released_promptly =
    Prompt.next
      (Prompt.next
        (Prompt.next
          (Prompt.next
            (Prompt.next
              (Prompt.next (Prompt.next Prompt.booted (command 7) tt) (receive 7 [] refl refl) tt)
              (reset 7 refl) (refl, refl))
            (deliver 7 refl) tt)
          (sent 7 refl) tt)
        (relay_ack [] 7 [] refl refl) tt)
      (give refl) tt

wait_ends_by_own_ack_example :
    (latest released.acks ≡ some (from_peer 7)) × (released.unanswered ≡ [])
wait_ends_by_own_ack_example = wait_ends_by_own_ack 7 released_promptly refl refl

-- A valid heartbeat behind one of another version, four seconds of silence, then an Ack.
abbrev rx_passes : List RxInput
rx_passes =
    record { received = none; frames = running_beat ∷ []; now = 1000 }
    ∷ record { received = some (2 ∷ 9 ∷ []); frames = []; now = 5000 }
    ∷ []

abbrev rx_looks : List Look
rx_looks = record { seen = true; now = 1000 } ∷ record { seen = false; now = 5000 } ∷ []

running_beat_is_valid : AnyValid (wrong_version ∷ running_beat ∷ [])
unfolding heartbeat_unpack
running_beat_is_valid = inr (inl (λ e. ground (arith, e)))

rx_run_lem_example :
    let effects = (rx_run rx_passes (rx_at_loop 500 (wrong_version ∷ []))).0 in
    (relayed_of effects ≡ relay_all rx_passes)
    × Alternates none (statuses effects)
    × (retained none (statuses effects) ≡ some false)
unfolding last_evidence heard last_look
rx_run_lem_example =
    rx_run_lem 500 (wrong_version ∷ []) rx_passes rx_looks
      (
        refl,
        ((λ h. running_beat_is_valid), (λ h. refl)),
        (refl, ((λ h. ground (arith, h)), (λ h. absurd h)), tt),
      )
      (omega arith)
