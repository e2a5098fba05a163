-- ===== src/Relay/RoundTrip/Traces.antt =====
-- The acts of the TX thread of gateway/src/relay.cpp in the steps of the interleaved system, beside
-- those of `tx_thread` as it is written.
use mathlib.Core.List.{append-nil}
use climate_node.Common.{
  ℕ, ◌≡◌, ◌≢◌, refl, sym, ap, subst, ◌∙◌, ◌↔◌, Bool, true, false, List, [], ◌∷◌, ◌++◌, map, arith,
  if◌then◌else◌,
}
use climate_node.Common.Decimal.{codes}
use climate_node.Zephyr.{Rc, success, enetunreach, is_success}
use climate_node.Protocol.{Nanopb}
use climate_node.Relay.{RelayDown, ack_wait_ms, send_synthetic_ack}
use climate_node.Relay.Threads.{
  TxAct, reset_ack_received, isotp_send, take_ack_received, effect, tx_addr, rx_fc_addr,
  command_frame, await_ack, tx_command,
}
use climate_node.Relay.RoundTrip.{
  TxPoint, RxPoint, tx_idle, tx_received, tx_sending, tx_delivered, tx_waiting, rx_idle,
  rx_published, System, Step, command, receive, reset, deliver, sent, not_sent, not_confirmed, take,
  expire, relay_ack, give,
}

-- `down` is the message that is queued for a sequence number.
module _ (pb : Nanopb) (down : ℕ → RelayDown) where
  abbrev sends : ℕ → TxAct
  sends q = isotp_send (command_frame (down q)) tx_addr rx_fc_addr

  abbrev answers_for : ℕ → List ℕ → List TxAct
  answers_for q reason = map effect (send_synthetic_ack pb (down q).sequence reason)

  abbrev no_route : ℕ → List TxAct
  no_route q = answers_for q (codes "no route to node over CAN")

  -- What the TX thread does in a step; nothing if the step is not its own.
  unfoldable pub acts_of : {s t : System} → Step s t → List TxAct
  acts_of (command q) = []
  acts_of (receive q rest idle first) = []
  acts_of (reset q at) = reset_ack_received ∷ []
  acts_of (deliver q at) = sends q ∷ []
  acts_of (sent q at) = []
  acts_of (not_sent q at) = sends q ∷ no_route q
  acts_of (not_confirmed q at) = no_route q
  acts_of (take q at given) = take_ack_received ack_wait_ms ∷ []
  acts_of (expire q at missing) =
      take_ack_received ack_wait_ms ∷ answers_for q (codes "no response over CAN")
  acts_of (relay_ack before q after idle held) = []
  acts_of (give at) = []

  -- A run of the system until the TX thread waits for a command, with what that thread does in it.
  pub data Completes : System → List TxAct → Type 0 where
    done : {s : System} → s.tx ≡ tx_idle → Completes s []
    next :
        {s t : System} {acts : List TxAct} (step : Step s t)
        → s.tx ≢ tx_idle
        → Completes t acts
        → Completes s (acts_of step ++ acts)

  ending : Rc → Bool → ℕ → List TxAct
  ending rc given q = if is_success rc then await_ack pb given (down q) else no_route q

  -- What the thread has still to do, from each of its points.
  abbrev Rest : TxPoint → List TxAct → Type 0
  Rest tx_idle acts = acts ≡ []
  Rest (tx_received q) acts = (rc : Rc) × (given : Bool) × (acts ≡ tx_command pb rc given (down q))
  Rest (tx_sending q) acts = (rc : Rc) × (given : Bool) × (acts ≡ sends q ∷ ending rc given q)
  Rest (tx_delivered q) acts = (rc : Rc) × (given : Bool) × (acts ≡ ending rc given q)
  Rest (tx_waiting q) acts = (given : Bool) × (acts ≡ await_ack pb given (down q))

  Rest-acts_of :
      {s t : System} (step : Step s t) (acts : List TxAct)
      → s.tx ≢ tx_idle
      → Rest t.tx acts
      → Rest s.tx (acts_of step ++ acts)
  unfolding acts_of ending tx_command await_ack
  Rest-acts_of (command q) acts busy r = r
  Rest-acts_of (receive q rest idle first) acts busy r = absurd (busy idle)
  Rest-acts_of (reset q at) acts busy (rc, given, e) =
      subst (λ p. Rest p (reset_ack_received ∷ acts)) (sym at)
        (rc, given, ap (λ l. reset_ack_received ∷ l) e)
  Rest-acts_of (deliver q at) acts busy (rc, given, e) =
      subst (λ p. Rest p (sends q ∷ acts)) (sym at) (rc, given, ap (λ l. sends q ∷ l) e)
  Rest-acts_of (sent q at) acts busy (given, e) =
      subst (λ p. Rest p acts) (sym at) (success, given, e)
  Rest-acts_of (not_sent q at) acts busy r =
      subst (λ p. Rest p (sends q ∷ (no_route q ++ acts))) (sym at)
        (
          enetunreach,
          false,
          ap (λ l. sends q ∷ l) (ap (λ l. no_route q ++ l) r ∙ append-nil (no_route q)),
        )
  Rest-acts_of (not_confirmed q at) acts busy r =
      subst (λ p. Rest p (no_route q ++ acts)) (sym at)
        (enetunreach, false, ap (λ l. no_route q ++ l) r ∙ append-nil (no_route q))
  Rest-acts_of (take q at given) acts busy r =
      subst (λ p. Rest p (take_ack_received ack_wait_ms ∷ acts)) (sym at)
        (true, ap (λ l. take_ack_received ack_wait_ms ∷ l) r)
  Rest-acts_of (expire q at missing) acts busy r =
      let late = answers_for q (codes "no response over CAN") in
      subst (λ p. Rest p (take_ack_received ack_wait_ms ∷ (late ++ acts))) (sym at)
        (
          false,
          ap (λ l. take_ack_received ack_wait_ms ∷ l) (ap (λ l. late ++ l) r ∙ append-nil late),
        )
  Rest-acts_of (relay_ack before q after idle held) acts busy r = r
  Rest-acts_of (give at) acts busy r = r

  Completes-Rest : {s : System} {acts : List TxAct} → Completes s acts → Rest s.tx acts
  Completes-Rest (done {s = s} idle) = subst (λ p. Rest p []) (sym idle) refl
  Completes-Rest (next {acts = acts} step busy run) =
      Rest-acts_of step acts busy (Completes-Rest run)

  still_at : {t p : TxPoint} → t ≡ p → p ≢ tx_idle → t ≢ tx_idle
  still_at at busy idle = busy (sym at ∙ idle)

  -- The peer answers, and the thread's wait ends.
  answered_run :
      (s : System) (q : ℕ) (before : List ℕ) (rx : RxPoint)
      → s.rx ≡ rx
      → s.tx ≡ tx_waiting q
      → s.unanswered ≡ before ++ (q ∷ [])
      → Completes s (take_ack_received ack_wait_ms ∷ [])
  unfolding acts_of
  answered_run s q before rx_published here at held =
      let busy = still_at at (λ e. ground (arith, e)) in
      next (give here) busy (next (take q at refl) busy (done refl))
  answered_run s q before rx_idle here at held =
      let busy = still_at at (λ e. ground (arith, e)) in
      next (relay_ack before q [] here held) busy
        (next (give refl) busy (next (take q at refl) busy (done refl)))

  expired_run :
      (s : System) (q : ℕ)
      → s.tx ≡ tx_waiting q
      → s.ack_received ≡ 0
      → Completes s (await_ack pb false (down q))
  unfolding acts_of await_ack
  expired_run s q at clear =
      let late = answers_for q (codes "no response over CAN") in
      subst (Completes s) (ap (λ l. take_ack_received ack_wait_ms ∷ l) (append-nil late))
        (next (expire q at clear) (still_at at (λ e. ground (arith, e))) (done refl))

  sent_run :
      (s : System) (q : ℕ) (given : Bool)
      → s.tx ≡ tx_sending q
      → s.ack_received ≡ 0
      → Completes s (sends q ∷ await_ack pb given (down q))
  unfolding acts_of await_ack
  sent_run s q true at clear = next (deliver q at) (still_at at (λ e. ground (arith, e))) (
      next (sent q refl) (λ e. ground (arith, e))
        (answered_run _ q s.unanswered s.rx refl refl refl))
  sent_run s q false at clear =
      next (deliver q at) (still_at at (λ e. ground (arith, e)))
        (next (sent q refl) (λ e. ground (arith, e)) (expired_run _ q refl clear))

  unsent_run : (s : System) (q : ℕ) → s.tx ≡ tx_sending q → Completes s (sends q ∷ no_route q)
  unfolding acts_of
  unsent_run s q at =
      subst (Completes s) (ap (λ l. sends q ∷ l) (append-nil (no_route q)))
        (next (not_sent q at) (still_at at (λ e. ground (arith, e))) (done refl))

  after_reset :
      (s : System) (q : ℕ) (was_sent given : Bool)
      → s.tx ≡ tx_sending q
      → s.ack_received ≡ 0
      → Completes s (sends q ∷ (if was_sent then await_ack pb given (down q) else no_route q))
  after_reset s q true given at clear = sent_run s q given at clear
  after_reset s q false given at clear = unsent_run s q at

  tx_command-Completes :
      (s : System) (q : ℕ) (rc : Rc) (given : Bool)
      → s.tx ≡ tx_received q
      → Completes s (tx_command pb rc given (down q))
  unfolding acts_of tx_command
  tx_command-Completes s q rc given at =
      next (reset q at) (still_at at (λ e. ground (arith, e)))
        (after_reset _ q (is_success rc) given refl refl)

  -- From any state of the interleaved system in which the TX thread has received a command: however
  -- the other steps fall in between, and whatever becomes of the transfer and the answer, what the
  -- thread does until it waits for the next command is what `tx_command` does for some result of
  -- `isotp_send` and of the wait; and each of those can happen.
  pub Completes_lem :
      (s : System) (q : ℕ) (acts : List TxAct)
      → s.tx ≡ tx_received q
      → Completes s acts ↔ ((rc : Rc) × (given : Bool) × (acts ≡ tx_command pb rc given (down q)))
  Completes_lem s q acts at = (
    (λ run. subst (λ p. Rest p acts) at (Completes-Rest run)),
    (λ (rc, given, e). subst (Completes s) (sym e) (tx_command-Completes s q rc given at)),
  )
