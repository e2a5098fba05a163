-- ===== src/Gateway/Poll.antt =====
-- The poll set that the main loop of gateway/src/main.cpp assembles in each pass.
use climate_node.Common.{
  ℕ, suc, zero, ◌≤◌, ◌≡◌, Bool, true, false, not, List, [], ◌∷◌, ◌++◌, Option, none, some,
  if◌then◌else◌, length, arith,
}
use climate_node.Gateway.{SessionState, idle, connecting, serving}
use climate_node.Gateway.Lifecycle.{is_idle, is_serving}
use climate_node.Gateway.Incoming.{Sessions}

-- What a descriptor belongs to; the index true is `kPeerSession`.
pub data Descriptor : Type 0 where
  socket : Bool → Descriptor
  telemetry_evt relay_telemetry_evt relay_ack_evt relay_status_evt : Descriptor

-- A slot is an index of `fds`, none for -1.
pub record PollSet : Type 0 where
  pub fds : List Descriptor
  pub own_sock : Option ℕ
  pub peer_sock : Option ℕ
  pub own_telemetry : Option ℕ
  pub relay_telemetry : Option ℕ
  pub relay_ack : Option ℕ
  pub relay_status : Option ℕ

-- One descriptor more, if it is wanted.
unfoldable pub watch_fd : Bool → Descriptor → List Descriptor → Option ℕ × List Descriptor
watch_fd wanted d fds = if wanted then (some (length fds), fds ++ (d ∷ [])) else (none, fds)

unfoldable pub poll_set_in : SessionState → SessionState → PollSet
unfolding watch_fd
poll_set_in own peer =
    let (own_sock, fds1) = watch_fd (not (is_idle own)) (socket false) [] in
    let (peer_sock, fds2) = watch_fd (not (is_idle peer)) (socket true) fds1 in
    let (own_telemetry, fds3) = watch_fd (is_serving own) telemetry_evt fds2 in
    let (relay_telemetry, fds4) = watch_fd (is_serving peer) relay_telemetry_evt fds3 in
    let (relay_ack, fds5) = watch_fd (is_serving peer) relay_ack_evt fds4 in
    let (relay_status, fds6) = watch_fd (is_serving peer) relay_status_evt fds5 in
    record {
      fds = fds6;
      own_sock = own_sock;
      peer_sock = peer_sock;
      own_telemetry = own_telemetry;
      relay_telemetry = relay_telemetry;
      relay_ack = relay_ack;
      relay_status = relay_status;
    }

unfoldable pub poll_set : Sessions → PollSet
poll_set ss = poll_set_in ss.own.state ss.peer.state

abbrev pub fd_at : List Descriptor → ℕ → Option Descriptor
fd_at [] k = none
fd_at (d ∷ ds) zero = some d
fd_at (d ∷ ds) (suc k) = fd_at ds k

-- The slot is taken exactly if the descriptor is wanted, and then it is where the slot says.
abbrev pub Watches : Bool → Descriptor → Option ℕ → List Descriptor → Type 0
Watches wanted d none fds = wanted ≡ false
Watches wanted d (some k) fds = (wanted ≡ true) × (fd_at fds k ≡ some d)

abbrev pub WatchesAll : SessionState → SessionState → PollSet → Type 0
WatchesAll own peer p =
    Watches (not (is_idle own)) (socket false) p.own_sock p.fds
    × Watches (not (is_idle peer)) (socket true) p.peer_sock p.fds
    × Watches (is_serving own) telemetry_evt p.own_telemetry p.fds
    × Watches (is_serving peer) relay_telemetry_evt p.relay_telemetry p.fds
    × Watches (is_serving peer) relay_ack_evt p.relay_ack p.fds
    × Watches (is_serving peer) relay_status_evt p.relay_status p.fds
    × (length p.fds ≤ 6)

poll_set_in_lem : (own peer : SessionState) → WatchesAll own peer (poll_set_in own peer)
unfolding poll_set_in
poll_set_in_lem idle idle = ground arith
poll_set_in_lem idle connecting = ground arith
poll_set_in_lem idle serving = ground arith
poll_set_in_lem connecting idle = ground arith
poll_set_in_lem connecting connecting = ground arith
poll_set_in_lem connecting serving = ground arith
poll_set_in_lem serving idle = ground arith
poll_set_in_lem serving connecting = ground arith
poll_set_in_lem serving serving = ground arith

-- Whatever the two sessions' states: a session's socket is polled exactly if the session is not idle,
-- a channel's descriptor exactly if the session that publishes it is serving; each slot points at its
-- own descriptor; and the array of six has room for all.
pub poll_set_lem : (ss : Sessions) → WatchesAll ss.own.state ss.peer.state (poll_set ss)
unfolding poll_set
poll_set_lem ss = poll_set_in_lem ss.own.state ss.peer.state
