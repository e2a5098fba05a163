-- ===== src/Relay/RoundTrip/Prompt.antt =====
-- The relay's round trips when no Ack is late.
use climate_node.Common.{
  ℕ, ◌≡◌, ◌⊎◌, inl, inr, refl, ap, ◌∙◌, sym, Option, none, some, List, [], ◌∷◌, ◌++◌, arith, subst,
}
use climate_node.Relay.RoundTrip.{
  TxPoint, tx_idle, tx_received, tx_sending, tx_delivered, tx_waiting, rx_idle, rx_published, UpAck,
  from_peer, System, Step, command, receive, reset, deliver, sent, not_sent, not_confirmed, take,
  expire, relay_ack, give, boot_state,
}

-- A command is only begun when the peer owes no Ack, and the RX thread is not between publishing an
-- Ack and giving the semaphore.
abbrev pub IsPrompt : {s t : System} → Step s t → Type 0
IsPrompt {s} (reset q e) = (s.unanswered ≡ []) × (s.rx ≡ rx_idle)
IsPrompt {s} _ = Unit {0}

pub data PromptReach : System → Type 0 where
  booted : PromptReach boot_state
  next : {s t : System} → PromptReach s → (st : Step s t) → IsPrompt st → PromptReach t

abbrev pub latest : List UpAck → Option UpAck
latest [] = none
latest (a ∷ []) = some a
latest (a ∷ b ∷ acks) = latest (b ∷ acks)

latest-append : (acks : List UpAck) (a : UpAck) → latest (acks ++ (a ∷ [])) ≡ some a
latest-append [] a = refl
latest-append (b ∷ []) a = refl
latest-append (b ∷ c ∷ acks) a = latest-append (c ∷ acks) a

-- The peer has `q` unanswered, or its Ack is on the channel and about to release the TX thread, or
-- has done so.
abbrev Serves : System → ℕ → Type 0
Serves s q =
    ((s.unanswered ≡ q ∷ []) × (s.rx ≡ rx_idle) × (s.ack_received ≡ 0))
    ⊎ ((s.unanswered ≡ [])
        × (s.rx ≡ rx_published)
        × (s.ack_received ≡ 0)
        × (latest s.acks ≡ some (from_peer q)))
    ⊎ ((s.unanswered ≡ []) × (s.rx ≡ rx_idle) × (latest s.acks ≡ some (from_peer q)))

abbrev IsServed : TxPoint → System → Type 0
IsServed tx_idle s = Unit {0}
IsServed (tx_received q) s = Unit {0}
IsServed (tx_sending q) s = (s.unanswered ≡ []) × (s.rx ≡ rx_idle) × (s.ack_received ≡ 0)
IsServed (tx_delivered q) s = Serves s q
IsServed (tx_waiting q) s = Serves s q

only_one :
    (before : List ℕ) (q : ℕ) (after : List ℕ) {p : ℕ}
    → before ++ (q ∷ after) ≡ p ∷ []
    → (q ≡ p) × (before ++ after ≡ [])
only_one [] q after e = ground arith
only_one (x ∷ []) q after e = cc
only_one (x ∷ y ∷ before) q after e = cc

not_none : (before : List ℕ) (q : ℕ) (after : List ℕ) → before ++ (q ∷ after) ≡ [] → ⊥
not_none [] q after e = cc
not_none (x ∷ before) q after e = cc

answer-Serves :
    (s : System) (p : ℕ) (before : List ℕ) (q : ℕ) (after : List ℕ)
    → s.rx ≡ rx_idle
    → s.unanswered ≡ before ++ (q ∷ after)
    → Serves s p
    → Serves
        (record s {
          unanswered = before ++ after;
          acks = s.acks ++ (from_peer q ∷ []);
          rx = rx_published;
        })
        p
answer-Serves s p before q after e u (inl (w, i, z)) =
    let (same, rest) = only_one before q after (sym u ∙ w) in
    inr
      (inl (rest, refl, z, latest-append s.acks (from_peer q) ∙ ap (λ x. some (from_peer x)) same))
answer-Serves s p before q after e u (inr (inl (w, i, z, l))) = cc
answer-Serves s p before q after e u (inr (inr (w, i, l))) =
    absurd (not_none before q after (sym u ∙ w))

command-IsServed :
    (p : TxPoint) (s : System) (q : ℕ)
    → IsServed p s
    → IsServed p (record s { waiting = s.waiting ++ (q ∷ []); accepted = s.accepted ++ (q ∷ []) })
command-IsServed tx_idle s q h = tt
command-IsServed (tx_received p) s q h = tt
command-IsServed (tx_sending p) s q h = h
command-IsServed (tx_delivered p) s q h = h
command-IsServed (tx_waiting p) s q h = h

answer-IsServed :
    (p : TxPoint) (s : System) (before : List ℕ) (q : ℕ) (after : List ℕ)
    → s.rx ≡ rx_idle
    → s.unanswered ≡ before ++ (q ∷ after)
    → IsServed p s
    → IsServed p (record s {
      unanswered = before ++ after;
      acks = s.acks ++ (from_peer q ∷ []);
      rx = rx_published;
    })
answer-IsServed tx_idle s before q after e u h = tt
answer-IsServed (tx_received p) s before q after e u h = tt
answer-IsServed (tx_sending p) s before q after e u h =
    absurd (not_none before q after (sym u ∙ h.0))
answer-IsServed (tx_delivered p) s before q after e u h = answer-Serves s p before q after e u h
answer-IsServed (tx_waiting p) s before q after e u h = answer-Serves s p before q after e u h

give-Serves :
    (s : System) (p : ℕ)
    → s.rx ≡ rx_published
    → Serves s p
    → Serves (record s { ack_received = 1; rx = rx_idle }) p
give-Serves s p e (inl (w, i, z)) = cc
give-Serves s p e (inr (inl (w, i, z, l))) = inr (inr (w, refl, l))
give-Serves s p e (inr (inr (w, i, l))) = cc

give-IsServed :
    (p : TxPoint) (s : System)
    → s.rx ≡ rx_published
    → IsServed p s
    → IsServed p (record s { ack_received = 1; rx = rx_idle })
give-IsServed tx_idle s e h = tt
give-IsServed (tx_received p) s e h = tt
give-IsServed (tx_sending p) s e h = cc (h.1)
give-IsServed (tx_delivered p) s e h = give-Serves s p e h
give-IsServed (tx_waiting p) s e h = give-Serves s p e h

step-IsServed : {s t : System} (st : Step s t) → IsPrompt st → IsServed s.tx s → IsServed t.tx t
step-IsServed {s} (command q) m h = command-IsServed s.tx s q h
step-IsServed {s} (receive q rest e w) m h = tt
step-IsServed {s} (reset q e) m h = (m.0, m.1, refl)
step-IsServed {s} (deliver q e) m h =
    let (none_left, quiet, zero) = subst (λ p. IsServed p s) e h in
    inl (ap (λ xs. xs ++ (q ∷ [])) none_left, quiet, zero)
step-IsServed {s} (sent q e) m h = subst (λ p. IsServed p s) e h
step-IsServed {s} (not_sent q e) m h = tt
step-IsServed {s} (not_confirmed q e) m h = tt
step-IsServed {s} (take q e a) m h = tt
step-IsServed {s} (expire q e a) m h = tt
step-IsServed {s} (relay_ack before q after e u) m h = answer-IsServed s.tx s before q after e u h
step-IsServed {s} (give e) m h = give-IsServed s.tx s e h

PromptReach-IsServed : {s : System} → PromptReach s → IsServed s.tx s
PromptReach-IsServed booted = tt
PromptReach-IsServed (next r st m) = step-IsServed st m (PromptReach-IsServed r)

-- If each command is begun, that is the semaphore reset for it, only when the peer owes no Ack and
-- the RX thread is not between publishing an Ack and giving the semaphore, then whenever the TX
-- thread waits for a command's Ack and the semaphore lets it go on, the Ack on the channel is the
-- peer's for that very command, and the peer owes none.
pub wait_ends_by_own_ack :
    {s : System} (q : ℕ)
    → PromptReach s
    → s.tx ≡ tx_waiting q
    → s.ack_received ≡ 1
    → (latest s.acks ≡ some (from_peer q)) × (s.unanswered ≡ [])
wait_ends_by_own_ack {s} q r e given =
    let served : Serves s q = subst (λ p. IsServed p s) e (PromptReach-IsServed r) in ground arith
