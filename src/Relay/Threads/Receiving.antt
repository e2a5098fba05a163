-- ===== src/Relay/Threads/Receiving.antt =====
-- The receiving thread of gateway/src/relay.cpp over any number of passes.
use mathlib.Core.List.{append_assoc, append-nil}
use climate_node.Common.{
  ℕ, suc, zero, ◌+◌, ◌≤◌, ◌<◌, ◌≡◌, ◌↔◌, refl, sym, ap, ◌∙◌, Bool, true, false, List, [], ◌∷◌, ◌++◌,
  Option, none, some, take, length, length-append, arith, if◌then◌else◌,
}
use climate_node.CanLink.{heartbeat_timeout_ms}
use climate_node.Relay.{
  LivenessState, is_online, liveness_step, Effect, publish, publish_status_of, give_ack_received,
  publish_status, publish_up, handle_relayed, CanFrame, drain_heartbeats, heartbeat_isr,
}
use climate_node.Relay.Liveness.{
  Look, watch, announced, Ascending, listening_since, last_evidence, heard, last_look, verdict,
  settled, retained, Alternates, watch-listening_since, announced-retained,
}
use climate_node.Relay.Routing.{AnyValid, drain_heartbeats_iff}
use climate_node.Relay.Threads.{
  RxState, RxInput, relay_received, queue_all, rx_pass, rx_run, rx_at_loop,
}

-- What effects publish on `chan_relay_status`, and the other effects.
unfoldable pub statuses : List Effect → List Bool
statuses [] = []
statuses (publish_status_of st ∷ es) = st.online ∷ statuses es
statuses (publish chan up ∷ es) = statuses es
statuses (give_ack_received ∷ es) = statuses es

unfoldable pub relayed_of : List Effect → List Effect
relayed_of [] = []
relayed_of (publish_status_of st ∷ es) = relayed_of es
relayed_of (publish chan up ∷ es) = publish chan up ∷ relayed_of es
relayed_of (give_ack_received ∷ es) = give_ack_received ∷ relayed_of es

-- What the payloads alone make the thread do.
unfoldable pub relay_all : List RxInput → List Effect
relay_all [] = []
relay_all (i ∷ is) = relay_received i.received ++ relay_all is

statuses_++ : (xs ys : List Effect) → statuses (xs ++ ys) ≡ statuses xs ++ statuses ys
unfolding statuses
statuses_++ [] ys = refl
statuses_++ (publish_status_of st ∷ xs) ys = ap (λ l. st.online ∷ l) (statuses_++ xs ys)
statuses_++ (publish chan up ∷ xs) ys = statuses_++ xs ys
statuses_++ (give_ack_received ∷ xs) ys = statuses_++ xs ys

relayed_of_++ : (xs ys : List Effect) → relayed_of (xs ++ ys) ≡ relayed_of xs ++ relayed_of ys
unfolding relayed_of
relayed_of_++ [] ys = refl
relayed_of_++ (publish_status_of st ∷ xs) ys = relayed_of_++ xs ys
relayed_of_++ (publish chan up ∷ xs) ys = ap (λ l. publish chan up ∷ l) (relayed_of_++ xs ys)
relayed_of_++ (give_ack_received ∷ xs) ys = ap (λ l. give_ack_received ∷ l) (relayed_of_++ xs ys)

relay_received-silent :
    (r : Option (List ℕ))
    → (statuses (relay_received r) ≡ []) × (relayed_of (relay_received r) ≡ relay_received r)
unfolding handle_relayed publish_up statuses relayed_of
relay_received-silent none = (refl, refl)
relay_received-silent (some []) = (refl, refl)
relay_received-silent (some (type ∷ payload)) = ground arith

heartbeat_isr_either :
    (q : List CanFrame) (f : CanFrame)
    → (4 ≤ length q → heartbeat_isr q f ≡ q) × (length q < 4 → heartbeat_isr q f ≡ q ++ (f ∷ []))
unfolding heartbeat_isr
heartbeat_isr_either q f = ((λ h. ground arith), (λ h. ground arith))

-- The driver queues the first frames that there is room for.
queue_all_room :
    (room : ℕ) (q fs : List CanFrame) → length q + room ≡ 4 → queue_all q fs ≡ q ++ take room fs
unfolding queue_all
queue_all_room zero q [] h = sym (append-nil q)
queue_all_room (suc room) q [] h = sym (append-nil q)
queue_all_room zero q (f ∷ fs) h =
    let full : heartbeat_isr q f ≡ q = (heartbeat_isr_either q f).0 (omega arith) in
    rw (full) (queue_all_room zero q fs h)
queue_all_room (suc room) q (f ∷ fs) h =
    let queued : heartbeat_isr q f ≡ q ++ (f ∷ []) = (heartbeat_isr_either q f).1 (omega arith) in
    let longer : length (q ++ (f ∷ [])) + room ≡ 4 = omega (arith, length-append q (f ∷ [])) in
    rw (queued, queue_all_room room (q ++ (f ∷ [])) fs longer)
      (append_assoc q (f ∷ []) (take room fs))

-- The looks of the passes, by what the driver called back with: before each, at most four frames
-- wait, the oldest ones.
abbrev pub Looks : List CanFrame → List RxInput → List Look → Type 0
Looks q [] [] = Unit {0}
Looks q [] (k ∷ ks) = ⊥
Looks q (i ∷ is) [] = ⊥
Looks q (i ∷ is) (k ∷ ks) =
    (k.now ≡ i.now) × ((k.seen ≡ true) ↔ AnyValid (take 4 (q ++ i.frames))) × Looks [] is ks

queue_all_++ : (q fs gs : List CanFrame) → queue_all q (fs ++ gs) ≡ queue_all (queue_all q fs) gs
unfolding queue_all
queue_all_++ q [] gs = refl
queue_all_++ q (f ∷ fs) gs = queue_all_++ (heartbeat_isr q f) fs gs

look-drain :
    (frames : List CanFrame) (i : RxInput) (k : Look)
    → (k.seen ≡ true) ↔ AnyValid (take 4 (frames ++ i.frames))
    → drain_heartbeats (queue_all (queue_all [] frames) i.frames) ≡ k.seen
look-drain frames i k h =
    let first = queue_all_room 4 [] (frames ++ i.frames) (omega arith) in
    let drained = drain_heartbeats_iff (take 4 (frames ++ i.frames)) in
    rw (sym (queue_all_++ [] frames i.frames), first) (ground (arith, drained, h))

news-silent :
    (changed online : Bool)
    → let news = if changed then publish_status online else [] in
      (statuses news ≡ (if changed then online ∷ [] else [])) × (relayed_of news ≡ [])
unfolding publish_status statuses relayed_of
news-silent changed online = ground arith

-- A pass whose look is `k`.
rx_pass-look :
    (i : RxInput) (s : RxState) (k : Look)
    → k.now ≡ i.now
    → drain_heartbeats (queue_all s.heartbeat_q i.frames) ≡ k.seen
    → let (l, changed) = liveness_step s.peer k.seen k.now heartbeat_timeout_ms in
      let (effects, s') = rx_pass i s in
      (statuses effects ≡ (if changed then is_online l.state ∷ [] else []))
      × (relayed_of effects ≡ relay_received i.received)
      × (s' ≡ record { heartbeat_q = []; peer = l })
unfolding rx_pass
rx_pass-look i s k same drained =
    let (l, changed) = liveness_step s.peer k.seen k.now heartbeat_timeout_ms in
    let news = if changed then publish_status (is_online l.state) else [] in
    let quiet = relay_received-silent i.received in
    let told = news-silent changed (is_online l.state) in
    rw
      (
        drained,
        sym same,
        statuses_++ (relay_received i.received) news,
        relayed_of_++ (relay_received i.received) news,
        quiet.0,
        quiet.1,
        told.0,
        told.1,
      )
      (refl, append-nil (relay_received i.received), refl)

pub rx_run-Looks :
    (frames : List CanFrame) (is : List RxInput) (ks : List Look) (l : LivenessState)
    → Looks frames is ks
    → let (effects, s) = rx_run is (record { heartbeat_q = queue_all [] frames; peer = l }) in
      (statuses effects ≡ announced heartbeat_timeout_ms l ks)
      × (relayed_of effects ≡ relay_all is)
      × (s.peer ≡ watch heartbeat_timeout_ms l ks)
unfolding rx_run announced watch relay_all statuses relayed_of queue_all
rx_run-Looks frames [] [] l h = (refl, refl, refl)
rx_run-Looks frames [] (k ∷ ks) l h = absurd h
rx_run-Looks frames (i ∷ is) [] l h = absurd h
rx_run-Looks frames (i ∷ is) (k ∷ ks) l h =
    let s : RxState = record { heartbeat_q = queue_all [] frames; peer = l } in
    let (l', changed) = liveness_step l k.seen k.now heartbeat_timeout_ms in
    let pass = rx_pass-look i s k h.0 (look-drain frames i k h.1) in
    let rest = rx_run-Looks [] is ks l' h.2 in
    let effects = (rx_pass i s).0 in
    let more = (rx_run is (record { heartbeat_q = []; peer = l' })).0 in
    rw
      (
        pass.2,
        statuses_++ effects more,
        relayed_of_++ effects more,
        pass.0,
        pass.1,
        rest.0,
        rest.1,
        rest.2,
      )
      (ground arith, refl, refl)

-- Over any passes of the receiving thread from the start of its loop, with an uptime that does not
-- run backwards, where a pass looks at the four oldest frames called back since the last one and
-- counts as a sign of life exactly if one of them is a valid heartbeat: the payloads received are
-- relayed in their order and nothing else is; a status is published only if it differs from the one
-- published before; and the last one published is offline exactly if the last look was the heartbeat
-- timeout or more after the last sign of life (or the start), online if it was not and there was
-- one, and none if there was none.
pub rx_run_lem :
    (start : ℕ) (frames : List CanFrame) (is : List RxInput) (ks : List Look)
    → Looks frames is ks
    → Ascending start ks
    → let effects = (rx_run is (rx_at_loop start frames)).0 in
      (relayed_of effects ≡ relay_all is)
      × Alternates none (statuses effects)
      × (retained none (statuses effects)
          ≡ settled (
              verdict heartbeat_timeout_ms
                (last_evidence start ks)
                (heard false ks)
                (last_look start ks)))
rx_run_lem start frames is ks looks up =
    let run = rx_run-Looks frames is ks (listening_since start) looks in
    let told = announced-retained heartbeat_timeout_ms (listening_since start) ks in
    let final = watch-listening_since heartbeat_timeout_ms start ks (omega arith) up in
    rw (run.0) (run.1, told.0, told.1 ∙ ap settled final)
