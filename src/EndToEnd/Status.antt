-- ===== src/EndToEnd/Status.antt =====
-- The gateway's verdict on the peer on its way to a host: rx_thread of gateway/src/relay.cpp, the
-- listener and the status stage of gateway/src/main.cpp.
use climate_node.Common.{
  ℕ, ◌≡◌, refl, sym, ap, ◌∙◌, Bool, true, false, List, [], ◌∷◌, ◌++◌, map, none, some, arith,
}
use climate_node.CanLink.{heartbeat_timeout_ms}
use climate_node.Commands.{Node}
use climate_node.Protocol.{Nanopb}
use climate_node.Relay.{
  RelayStatus, CanFrame, Effect, publish, publish_status_of, give_ack_received,
}
use climate_node.Relay.Liveness.{
  Look, Ascending, last_evidence, heard, last_look, verdict, settled, retained,
}
use climate_node.Relay.Threads.{RxInput, rx_run, rx_at_loop}
use climate_node.Relay.Threads.Receiving.{Looks, statuses, rx_run_lem}
use climate_node.Gateway.{peer_topic_status, at_least_once, serving, next_id}
use climate_node.Gateway.Lifecycle.{status_text}
use climate_node.Gateway.Outgoing.Stages.{message}
use climate_node.Gateway.Channels.{Channel, has_fd-chan_pub, chan_pub, chan_pubs}
use climate_node.Gateway.Loop.{arrive, others_publish, StageInput, World, relay_status_stage}
use climate_node.Gateway.Loop.Delivery.{PublishesFirst, relay_status_stage_lem}
use climate_node.EndToEnd.{with_statuses}

-- The messages that effects publish on `chan_relay_status`.
unfoldable pub status_messages : List Effect → List RelayStatus
status_messages [] = []
status_messages (publish_status_of st ∷ es) = st ∷ status_messages es
status_messages (publish chan up ∷ es) = status_messages es
status_messages (give_ack_received ∷ es) = status_messages es

online_of : RelayStatus → Bool
online_of st = st.online

statuses-status_messages : (es : List Effect) → statuses es ≡ map online_of (status_messages es)
unfolding status_messages statuses online_of
statuses-status_messages [] = refl
statuses-status_messages (publish_status_of st ∷ es) =
    ap (λ l. st.online ∷ l) (statuses-status_messages es)
statuses-status_messages (publish chan up ∷ es) = statuses-status_messages es
statuses-status_messages (give_ack_received ∷ es) = statuses-status_messages es

-- The last of some messages, with the ones before it, and what it says.
abbrev EndsWith : List RelayStatus → Bool → Type 0
EndsWith ms b =
    (earlier : List RelayStatus) × (st : RelayStatus) × (ms ≡ earlier ++ (st ∷ []))
    × (st.online ≡ b)

retained-EndsWith :
    (m : RelayStatus) (ms : List RelayStatus) (b : Bool)
    → retained (some m.online) (map online_of ms) ≡ some b
    → EndsWith (m ∷ ms) b
unfolding online_of
retained-EndsWith m [] b h = ([], m, refl, ground (arith, h))
retained-EndsWith m (m' ∷ ms) b h =
    let (earlier, st, same, says) = retained-EndsWith m' ms b h in
    (m ∷ earlier, st, ap (λ l. m ∷ l) same, says)

all-EndsWith :
    (ms : List RelayStatus) (b : Bool) → retained none (map online_of ms) ≡ some b → EndsWith ms b
unfolding online_of
all-EndsWith [] b h = absurd (ground (arith, h))
all-EndsWith (m ∷ ms) b h = retained-EndsWith m ms b h

-- After some messages, the channel is as after the last of them.
chan_pubs-append :
    (held : List RelayStatus) (st : RelayStatus) (c : Channel RelayStatus)
    → c.has_fd ≡ true
    → (before : Channel RelayStatus) × (chan_pubs (held ++ (st ∷ [])) c ≡ chan_pub st before)
      × (before.has_fd ≡ true)
unfolding chan_pubs
chan_pubs-append [] st c fd = (c, refl, fd)
chan_pubs-append (m ∷ held) st c fd =
    chan_pubs-append held st (chan_pub m c) (has_fd-chan_pub m c fd)

-- After any passes of the receiving thread from the start of its loop, in which the gateway has come
-- to a verdict on the peer: it has published at least one status, and if the last one that it
-- published was stored on the channel, and the main loop has not looked since, then the next look,
-- with the peer's session serving and the channel readable, publishes on the peer's status topic, at
-- QoS 1 and retained, the text of that verdict: "online" if the last look of the receiving thread
-- came less than the heartbeat timeout after the last sign of life, "offline" otherwise. Of the
-- statuses before it, it does not matter which were stored, and which the main loop has seen: `held`
-- are those that it has not, and the world `w` is any.
pub verdict_reaches_host :
    (n : Node) (pb : Nanopb) (start : ℕ) (frames : List CanFrame) (is : List RxInput)
    (ks : List Look) (si : StageInput) (w : World n pb) (held : List RelayStatus) (online : Bool)
    → Looks frames is ks
    → Ascending start ks
    → settled (
        verdict heartbeat_timeout_ms (last_evidence start ks) (heard false ks) (last_look start ks))
      ≡ some online
    → si.can_read ≡ true
    → w.channels.relay_status.has_fd ≡ true
    → w.sessions.peer.state ≡ serving
    → let published = status_messages (rx_run is (rx_at_loop start frames)).0 in
      (earlier : List RelayStatus) × (last : RelayStatus) × (published ≡ earlier ++ (last ∷ []))
      × PublishesFirst true
          (message peer_topic_status
            (status_text online)
            at_least_once
            (next_id w.sessions.peer.next_message_id)
            true)
          (relay_status_stage n pb true si (with_statuses n pb (held ++ (last ∷ [])) w)).0
unfolding others_publish arrive
verdict_reaches_host n pb start frames is ks si w held online looks up settles readable fd serves =
    let effects = (rx_run is (rx_at_loop start frames)).0 in
    let told = (rx_run_lem start frames is ks looks up).2 ∙ settles in
    let kept = ap (retained none) (sym (statuses-status_messages effects)) ∙ told in
    let (earlier, last, same, says) = all-EndsWith (status_messages effects) online kept in
    let (before, newest, opened) = chan_pubs-append held last w.channels.relay_status fd in
    (
      earlier,
      last,
      same,
      rw (sym says) (
          (relay_status_stage_lem n pb si (with_statuses n pb (held ++ (last ∷ [])) w) readable
            before last opened serves newest).0),
    )
