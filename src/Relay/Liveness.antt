-- ===== src/Relay/Liveness.antt =====
-- The liveness machine of gateway/src/relay.h over a whole history of steps.
use climate_node.Common.{
  ℕ, ◌+◌, ◌≤◌, ◌<◌, ◌≡◌, ◌≢◌, ◌⊎◌, refl, ap, Bool, true, false, List, [], ◌∷◌, Option, none, some,
  arith, leb, if◌then◌else◌,
}
use native.Mathlib.Nat.{le_refl}
use climate_node.Relay.{
  PeerLiveness, peer_unknown, peer_online, peer_offline, LivenessState, is_online, liveness_step,
}

-- A step of the receiving thread: whether a valid beat was drained, and the time.
pub record Look : Type 0 where
  pub seen : Bool
  pub now : ℕ

-- The thread's variable after the looks, and the values it has published, oldest first.
unfoldable pub watch : ℕ → LivenessState → List Look → LivenessState
watch timeout l [] = l
watch timeout l (k ∷ ks) = watch timeout (liveness_step l k.seen k.now timeout).0 ks

unfoldable pub announced : ℕ → LivenessState → List Look → List Bool
announced timeout l [] = []
announced timeout l (k ∷ ks) =
    let (l', changed) = liveness_step l k.seen k.now timeout in
    let rest = announced timeout l' ks in if changed then is_online l'.state ∷ rest else rest

abbrev pub listening_since : ℕ → LivenessState
listening_since start = record { state = peer_unknown; last_seen_ms = start }

-- The clock does not run backwards.
abbrev pub Ascending : ℕ → List Look → Type 0
Ascending t [] = Unit {0}
Ascending t (k ∷ ks) = (t ≤ k.now) × Ascending k.now ks

-- What a history says: the last evidence, whether there was a beat, and the time of the last look.
unfoldable pub last_evidence : ℕ → List Look → ℕ
last_evidence t [] = t
last_evidence t (k ∷ ks) = last_evidence (if k.seen then k.now else t) ks

unfoldable pub heard : Bool → List Look → Bool
heard b [] = b
heard b (k ∷ ks) = heard (if k.seen then true else b) ks

unfoldable pub last_look : ℕ → List Look → ℕ
last_look t [] = t
last_look t (k ∷ ks) = last_look k.now ks

abbrev pub verdict : ℕ → ℕ → Bool → ℕ → PeerLiveness
verdict timeout evidence beat now =
    if leb (evidence + timeout) now
    then peer_offline
    else if beat
    then peer_online
    else peer_unknown

step-verdict :
    (timeout evidence now : ℕ) (beat seen : Bool) (later : ℕ)
    → 0 < timeout
    → now ≤ later
    → (liveness_step
        (record { state = verdict timeout evidence beat now; last_seen_ms = evidence })
        seen
        later
        timeout).0
      ≡ record {
        state =
            verdict timeout (if seen then later else evidence) (if seen then true else beat) later;
        last_seen_ms = if seen then later else evidence;
      }
unfolding liveness_step
step-verdict timeout evidence now beat seen later pos le = ground arith

watch-verdict :
    (timeout evidence now : ℕ) (beat : Bool) (ks : List Look)
    → 0 < timeout
    → evidence ≤ now
    → Ascending now ks
    → watch timeout
        (record { state = verdict timeout evidence beat now; last_seen_ms = evidence })
        ks
      ≡ record {
        state = verdict timeout (last_evidence evidence ks) (heard beat ks) (last_look now ks);
        last_seen_ms = last_evidence evidence ks;
      }
unfolding watch last_evidence heard last_look
watch-verdict timeout evidence now beat [] pos le up = refl
watch-verdict timeout evidence now beat (k ∷ ks) pos le up =
    rw (step-verdict timeout evidence now beat k.seen k.now pos up.0) (
      watch-verdict timeout (if k.seen then k.now else evidence) k.now
        (if k.seen then true else beat) ks pos (ground arith) up.1)

-- After any history with a clock that does not run backwards, the machine is OFFLINE exactly if the
-- last look was a timeout or more after the last evidence (a beat, or the start of listening), ONLINE
-- if it is not and a beat was ever seen, and UNKNOWN if there was none.
pub watch-listening_since :
    (timeout start : ℕ) (ks : List Look)
    → 0 < timeout
    → Ascending start ks
    → (watch timeout (listening_since start) ks).state
      ≡ verdict timeout (last_evidence start ks) (heard false ks) (last_look start ks)
watch-listening_since timeout start ks pos up =
    let begins : verdict timeout start false start ≡ peer_unknown = ground arith in
    let follows = watch-verdict timeout start start false ks pos (le_refl start) up in
    ap (λ (l : LivenessState). l.state) (rw begins at follows)

-- What a retained status topic holds for a state, and after some publishes.
abbrev pub settled : PeerLiveness → Option Bool
settled peer_unknown = none
settled peer_online = some true
settled peer_offline = some false

abbrev pub retained : Option Bool → List Bool → Option Bool
retained r [] = r
retained r (b ∷ bs) = retained (some b) bs

abbrev pub Alternates : Option Bool → List Bool → Type 0
Alternates r [] = Unit {0}
Alternates r (b ∷ bs) = (r ≢ some b) × Alternates (some b) bs

step-settled :
    (timeout : ℕ) (l : LivenessState) (k : Look)
    → let (l', changed) = liveness_step l k.seen k.now timeout in
      ((changed ≡ false) × (settled l'.state ≡ settled l.state))
      ⊎ ((changed ≡ true)
          × (settled l'.state ≡ some (is_online l'.state))
          × (settled l.state ≢ some (is_online l'.state)))
unfolding liveness_step
step-settled timeout l k = ground arith

-- From any state and over any history, a value is published only when it differs from the one that
-- the topic retains, and what the topic retains in the end is the final state: nothing for UNKNOWN,
-- online for ONLINE, offline for OFFLINE.
pub announced-retained :
    (timeout : ℕ) (l : LivenessState) (ks : List Look)
    → Alternates (settled l.state) (announced timeout l ks)
      × (retained (settled l.state) (announced timeout l ks) ≡ settled (watch timeout l ks).state)
unfolding announced watch
announced-retained timeout l [] = (tt, refl)
announced-retained timeout l (k ∷ ks) = ground (
  arith,
  step-settled timeout l k,
  announced-retained timeout (liveness_step l k.seen k.now timeout).0 ks,
)
