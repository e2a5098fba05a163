-- ===== src/Relay/RoundTrip/Accounting.antt =====
-- What the interleavings of the relay's threads keep.
use mathlib.Core.List.{append_assoc, append-nil, map-append}
use climate_node.Common.{ℕ, suc, ◌+◌, ◌≤◌, ◌≡◌, refl, sym, ap, ◌∙◌, List, [], ◌∷◌, ◌++◌, map, arith}
use climate_node.Relay.RoundTrip.{
  TxPoint, tx_idle, tx_received, tx_sending, tx_delivered, tx_waiting, RxPoint, rx_idle,
  rx_published, UpAck, from_peer, synthetic, Verdict, answered, no_route, no_response, System, Step,
  command, receive, reset, deliver, sent, not_sent, not_confirmed, take, expire, relay_ack, give,
  Reach, booted, next,
}

-- The command that the TX thread holds.
abbrev pub held : TxPoint → List ℕ
held tx_idle = []
held (tx_received q) = q ∷ []
held (tx_sending q) = q ∷ []
held (tx_delivered q) = q ∷ []
held (tx_waiting q) = q ∷ []

abbrev pub decided : Verdict → ℕ
decided (answered q) = q
decided (no_route q) = q
decided (no_response q) = q

-- The commands that were given up on, and those that the gateway answered itself.
abbrev pub given_up : List Verdict → List ℕ
given_up [] = []
given_up (answered q ∷ vs) = given_up vs
given_up (no_route q ∷ vs) = q ∷ given_up vs
given_up (no_response q ∷ vs) = q ∷ given_up vs

abbrev pub synthesized : List UpAck → List ℕ
synthesized [] = []
synthesized (from_peer q ∷ acks) = synthesized acks
synthesized (synthetic q ∷ acks) = q ∷ synthesized acks

abbrev in_flight : RxPoint → ℕ
in_flight rx_idle = 0
in_flight rx_published = 1

given_up-append : (xs ys : List Verdict) → given_up (xs ++ ys) ≡ given_up xs ++ given_up ys
given_up-append [] ys = refl
given_up-append (answered q ∷ xs) ys = given_up-append xs ys
given_up-append (no_route q ∷ xs) ys = ap (◌∷◌ q) (given_up-append xs ys)
given_up-append (no_response q ∷ xs) ys = ap (◌∷◌ q) (given_up-append xs ys)

synthesized-append :
    (xs ys : List UpAck) → synthesized (xs ++ ys) ≡ synthesized xs ++ synthesized ys
synthesized-append [] ys = refl
synthesized-append (from_peer q ∷ xs) ys = synthesized-append xs ys
synthesized-append (synthetic q ∷ xs) ys = ap (◌∷◌ q) (synthesized-append xs ys)

abbrev pub answers : List Verdict → ℕ
answers [] = 0
answers (answered q ∷ vs) = suc (answers vs)
answers (no_route q ∷ vs) = answers vs
answers (no_response q ∷ vs) = answers vs

abbrev pub peer_acks : List UpAck → ℕ
peer_acks [] = 0
peer_acks (from_peer q ∷ acks) = suc (peer_acks acks)
peer_acks (synthetic q ∷ acks) = peer_acks acks

answers-append : (xs ys : List Verdict) → answers (xs ++ ys) ≡ answers xs + answers ys
answers-append [] ys = omega arith
answers-append (answered q ∷ xs) ys = omega (arith, answers-append xs ys)
answers-append (no_route q ∷ xs) ys = answers-append xs ys
answers-append (no_response q ∷ xs) ys = answers-append xs ys

peer_acks-append : (xs ys : List UpAck) → peer_acks (xs ++ ys) ≡ peer_acks xs + peer_acks ys
peer_acks-append [] ys = omega arith
peer_acks-append (from_peer q ∷ xs) ys = omega (arith, peer_acks-append xs ys)
peer_acks-append (synthetic q ∷ xs) ys = peer_acks-append xs ys

-- Every command accepted so far is decided, held or waiting, in the order of acceptance.
abbrev pub IsInOrder : System → Type 0
IsInOrder s = s.accepted ≡ map decided s.verdicts ++ (held s.tx ++ s.waiting)

-- The Acks made by the gateway are those of the commands given up on, in order.
abbrev pub IsMadeUp : System → Type 0
IsMadeUp s = synthesized s.acks ≡ given_up s.verdicts

-- Each release of the TX thread has an Ack of the peer to it.
abbrev IsReleased : System → Type 0
IsReleased s = answers s.verdicts + s.ack_received + in_flight s.rx ≤ peer_acks s.acks

decide-IsInOrder :
    (s : System) (q : ℕ) (v : Verdict)
    → held s.tx ≡ q ∷ []
    → decided v ≡ q
    → IsInOrder s
    → s.accepted ≡ map decided (s.verdicts ++ (v ∷ [])) ++ s.waiting
decide-IsInOrder s q v e d h =
    h ∙ rw (e, map-append decided s.verdicts (v ∷ []), d) (simp append_assoc)

Step-IsInOrder : {s t : System} → Step s t → IsInOrder s → IsInOrder t
Step-IsInOrder {s} (command q) h = rw h (simp append_assoc)
Step-IsInOrder {s} (receive q rest e w) h = h ∙ rw (e, w) refl
Step-IsInOrder {s} (reset q e) h = h ∙ rw e refl
Step-IsInOrder {s} (deliver q e) h = h ∙ rw e refl
Step-IsInOrder {s} (sent q e) h = h ∙ rw e refl
Step-IsInOrder {s} (not_sent q e) h = decide-IsInOrder s q (no_route q) (ap held e) refl h
Step-IsInOrder {s} (not_confirmed q e) h = decide-IsInOrder s q (no_route q) (ap held e) refl h
Step-IsInOrder {s} (take q e a) h = decide-IsInOrder s q (answered q) (ap held e) refl h
Step-IsInOrder {s} (expire q e a) h = decide-IsInOrder s q (no_response q) (ap held e) refl h
Step-IsInOrder {s} (relay_ack before q after e u) h = h
Step-IsInOrder {s} (give e) h = h

give_up-IsMadeUp :
    (s : System) (q : ℕ) (v : Verdict)
    → given_up (v ∷ []) ≡ q ∷ []
    → IsMadeUp s
    → synthesized (s.acks ++ (synthetic q ∷ [])) ≡ given_up (s.verdicts ++ (v ∷ []))
give_up-IsMadeUp s q v e h =
    rw (synthesized-append s.acks (synthetic q ∷ []), given_up-append s.verdicts (v ∷ []), h, e)

Step-IsMadeUp : {s t : System} → Step s t → IsMadeUp s → IsMadeUp t
Step-IsMadeUp {s} (command q) h = h
Step-IsMadeUp {s} (receive q rest e w) h = h
Step-IsMadeUp {s} (reset q e) h = h
Step-IsMadeUp {s} (deliver q e) h = h
Step-IsMadeUp {s} (sent q e) h = h
Step-IsMadeUp {s} (not_sent q e) h = give_up-IsMadeUp s q (no_route q) refl h
Step-IsMadeUp {s} (not_confirmed q e) h = give_up-IsMadeUp s q (no_route q) refl h
Step-IsMadeUp {s} (take q e a) h =
    h ∙ sym (given_up-append s.verdicts (answered q ∷ []) ∙ append-nil (given_up s.verdicts))
Step-IsMadeUp {s} (expire q e a) h = give_up-IsMadeUp s q (no_response q) refl h
Step-IsMadeUp {s} (relay_ack before q after e u) h =
    synthesized-append s.acks (from_peer q ∷ []) ∙ append-nil (synthesized s.acks) ∙ h
Step-IsMadeUp {s} (give e) h = h

Step-IsReleased : {s t : System} → Step s t → IsReleased s → IsReleased t
Step-IsReleased {s} (command q) h = h
Step-IsReleased {s} (receive q rest e w) h = h
Step-IsReleased {s} (reset q e) h = omega arith
Step-IsReleased {s} (deliver q e) h = h
Step-IsReleased {s} (sent q e) h = h
Step-IsReleased {s} (not_sent q e) h =
    omega (
      arith,
      answers-append s.verdicts (no_route q ∷ []),
      peer_acks-append s.acks (synthetic q ∷ []),
    )
Step-IsReleased {s} (not_confirmed q e) h =
    omega (
      arith,
      answers-append s.verdicts (no_route q ∷ []),
      peer_acks-append s.acks (synthetic q ∷ []),
    )
Step-IsReleased {s} (take q e a) h = omega (arith, answers-append s.verdicts (answered q ∷ []))
Step-IsReleased {s} (expire q e a) h = omega (
  arith,
  answers-append s.verdicts (no_response q ∷ []),
  peer_acks-append s.acks (synthetic q ∷ []),
)
Step-IsReleased {s} (relay_ack before q after e u) h =
    omega (arith, peer_acks-append s.acks (from_peer q ∷ []), ap in_flight e)
Step-IsReleased {s} (give e) h = omega (arith, ap in_flight e)

-- In every reachable state of the two threads: the commands accepted so far are, in that order, those
-- decided, the one that the TX thread holds and those that wait, so each gets one verdict; the Acks
-- that the gateway made up are exactly those of the commands it gave up on, in that order; and the
-- peer has sent at least as many Acks as there are commands taken to be answered.
pub Reach-accounts :
    {s : System} → Reach s → IsInOrder s × IsMadeUp s × (answers s.verdicts ≤ peer_acks s.acks)
Reach-accounts r = (in_order r, made_up r, omega (arith, released r))
  where
    in_order : {s : System} → Reach s → IsInOrder s
    in_order booted = refl
    in_order (next r st) = Step-IsInOrder st (in_order r)

    made_up : {s : System} → Reach s → IsMadeUp s
    made_up booted = refl
    made_up (next r st) = Step-IsMadeUp st (made_up r)

    released : {s : System} → Reach s → IsReleased s
    released booted = omega arith
    released (next r st) = Step-IsReleased st (released r)
