-- ===== src/Peer/Link.antt =====
-- The link state of the peer: the backoff of what is expensive, and the verdict of a heartbeat.
use climate_node.Common.{
  ℕ, suc, ◌+◌, ◌*◌, ◌/◌, ◌%◌, ◌^◌, ◌≤◌, min, ◌≡◌, ◌↔◌, refl, ap, ◌∙◌, true, false, List, [], ◌∷◌,
  some, arith, length, if◌then◌else◌,
}
use native.Mathlib.Nat.{pow-suc, add-zero, add-suc, suc-add, one-le-pow, zero-add}
use climate_node.Zephyr.{Rc, success, is_success}
use climate_node.CanLink.{heartbeat_unpack, heartbeat_id}
use climate_node.CanLink.Frame.{heartbeat_unpack-heartbeat_pack}
use climate_node.Peer.{
  LinkState, tx_backoff_min_ms, tx_backoff_max_ms, next_backoff, note_link, BeatState, BeatInput,
  heartbeat_sent, beats_end, send_heartbeat, node_id,
}

-- Failures noted at the given times, one after the other.
unfoldable pub note_failures : List ℕ → LinkState → LinkState
note_failures [] l = l
note_failures (t ∷ ts) l = note_failures ts (note_link false t l)

abbrev pub backoff_after : ℕ → ℕ
backoff_after k = min (tx_backoff_min_ms * 2 ^ k) tx_backoff_max_ms

-- Down since the time `t`, with `k` doublings behind it.
abbrev pub down : ℕ → ℕ → LinkState
down k t = record {
  link_up = false;
  tx_backoff_ms = backoff_after k;
  tx_retry_at = t + backoff_after k;
}

next_backoff-backoff_after : (k : ℕ) → next_backoff (backoff_after k) ≡ backoff_after (suc k)
unfolding next_backoff
next_backoff-backoff_after k = ground (arith, pow-suc 2 k, one-le-pow k 2 (omega arith))

pub note_link-down : (k t u : ℕ) → note_link false u (down k t) ≡ down (suc k) u
unfolding note_link
note_link-down k t u = rw (next_backoff-backoff_after k)

pub note_link-up : (u : ℕ) (l : LinkState) → l.tx_backoff_ms ≡ 0 → note_link false u l ≡ down 0 u
unfolding note_link next_backoff
note_link-up u l e = rw e refl

-- The last of some times, or the given one.
abbrev pub last_time : ℕ → List ℕ → ℕ
last_time t [] = t
last_time t (u ∷ us) = last_time u us

note_failures-down :
    (ts : List ℕ) (k t : ℕ) → note_failures ts (down k t) ≡ down (k + length ts) (last_time t ts)
unfolding note_failures
note_failures-down [] k t = rw (add-zero k)
note_failures-down (u ∷ us) k t =
    rw (note_link-down k t u, add-suc, ← suc-add) (note_failures-down us (suc k) u)

-- From a link that is up and has no backoff, n + 1 failures in a row take it down, whatever their
-- times: the backoff is then 2000 ms doubled n times, capped at 30000 ms, so it never wraps, and the
-- next attempt is due that long after the last failure. The first success clears it.
pub note_failures_lem :
    (t : ℕ) (ts : List ℕ) (l : LinkState) (later : ℕ)
    → l.tx_backoff_ms ≡ 0
    → (note_failures (t ∷ ts) l ≡ down (length ts) (last_time t ts))
      × ((note_link true later (note_failures (t ∷ ts) l)).link_up ≡ true)
      × ((note_link true later (note_failures (t ∷ ts) l)).tx_backoff_ms ≡ 0)
unfolding note_failures note_link next_backoff
note_failures_lem t ts l later e = (
  rw e (note_failures-down ts 0 t ∙ ap (λ k. down k (last_time t ts)) (zero-add (length ts))),
  refl,
  refl,
)

-- The error of the last of some beats, or the one before them.
abbrev pub last_error : Rc → List Rc → Rc
last_error e [] = e
last_error e (f ∷ fs) = last_error f fs

pub beats_end_lem :
    (es : List Rc) (b : BeatState)
    → beats_end es b ≡ record b {
      beats_completed = b.beats_completed + length es;
      last_beat_error = last_error b.last_beat_error es;
    }
unfolding beats_end heartbeat_sent
beats_end_lem [] b = rw (add-zero b.beats_completed) refl
beats_end_lem (e ∷ es) b =
    beats_end_lem es (heartbeat_sent e b)
    ∙ ap (λ k. record b { beats_completed = k; last_beat_error = last_error e es }) (omega arith)

-- The verdict of a heartbeat: the link is up after it exactly if the frame was accepted, the last
-- beat that had ended when the thread looked reported no error, and no earlier beat was still
-- outstanding then. The frame has the peer's heartbeat identifier, and whoever unpacks it reads the
-- state and the sequence byte as they were, and the uptime in seconds, modulo 2 ^ 32.
pub send_heartbeat_lem :
    (i : BeatInput) (b : BeatState) (l : LinkState)
    → let (frame, b', l') = send_heartbeat i b l in
      ((l'.link_up ≡ true) ↔ (
        (i.can_send_rc ≡ success)
        × (last_error b.last_beat_error i.ended ≡ success)
        × (b.beats_queued ≤ b.beats_completed + length i.ended + length i.ended_late)))
      × (frame.id ≡ heartbeat_id node_id)
      × (heartbeat_unpack frame.frame_data frame.dlc
          ≡ some (record b.hb_state { uptime_s = i.filled / 1000 % 2 ^ 32 }))
unfolding send_heartbeat note_link
send_heartbeat_lem i b l =
    let hb = record b.hb_state { uptime_s = i.filled / 1000 % 2 ^ 32 } in
    let queued = if is_success i.can_send_rc then b.beats_queued + 1 else b.beats_queued in
    let sent : BeatState = record b { hb_state = hb; beats_queued = queued } in
    let now = beats_end_lem i.ended sent in
    let later = beats_end_lem i.ended_late (beats_end i.ended sent) in
    (rw (later, now) (ground arith), refl, heartbeat_unpack-heartbeat_pack _ (omega arith))
