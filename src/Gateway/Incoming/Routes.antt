-- ===== src/Gateway/Incoming/Routes.antt =====
-- Where a command goes that the broker sent, and how it is answered.
use climate_node.Common.{
  ℕ, ◌%◌, ◌^◌, ◌≤◌, ◌<◌, ◌≡◌, refl, ◌⊎◌, inl, inr, Bool, true, false, List, [], ◌∷◌, ◌++◌, none,
  some, ltb, if◌then◌else◌, length, if_both, arith,
}
use climate_node.Common.Decimal.{codes}
use climate_node.Zephyr.{Rc, success, is_success}
use climate_node.CanLink.{first_peer_node_id, relay_msg_command}
use climate_node.Commands.{Node, Command, failed, malformed, Dedupe, handle_command}
use climate_node.Commands.Texts.{HasTexts, ResultFits, handle_command-ResultFits}
use climate_node.Protocol.{Nanopb, IsNanopb, IsText, decode_command, zero_command}
use climate_node.Protocol.Acks.{decode_command-some, decode_command_lem}
use climate_node.Peer.{handle_incoming}
use climate_node.Peer.Answer.{Answers, handle_incoming-decoded}
use climate_node.Gateway.{peer_topic_command, peer_topic_ack}
use climate_node.Gateway.Incoming.{
  topic_is, Sessions, session_of, Act, hand_over, PublishEvt, publish_ack, forward_to_peer,
  detail_if, info_if, puback, carry_out, after_reading,
}
use climate_node.Gateway.Incoming.Answers.{Publishes, publish_ack-Publishes, publish_ack_result}

-- A payload handed over to the relay.
abbrev pub relayed : List ℕ → ℕ → Act
relayed payload sequence = hand_over (record {
  node_id = first_peer_node_id;
  len = length payload;
  sequence = sequence;
  bytes = payload;
})

module _ (n : Node) (pb : Nanopb) (law : IsNanopb pb) where
  forward_to_peer_taken :
      (payload : List ℕ) (seq : ℕ) (ss : Sessions)
      → length payload ≤ 24
      → forward_to_peer n pb payload seq success ss ≡ (relayed payload seq ∷ [], ss)
  unfolding forward_to_peer
  forward_to_peer_taken payload seq ss fits =
      let small : ltb 24 (length payload) ≡ false = ground arith in
      let byte : length payload % 2 ^ 8 ≡ length payload = omega arith in rw (small, byte)

  forward_to_peer_busy :
      (payload : List ℕ) (seq : ℕ) (rc : Rc) (ss : Sessions)
      → length payload ≤ 24
      → is_success rc ≡ false
      → forward_to_peer n pb payload seq rc ss
        ≡ publish_ack n pb true peer_topic_ack seq failed (some (codes "relay busy")) none ss
  unfolding forward_to_peer
  forward_to_peer_busy payload seq rc ss fits busy =
      let small : ltb 24 (length payload) ≡ false = ground arith in rw (small, busy)

  -- A payload of more than 128 bytes, or one that is no Command: it is acknowledged to the broker if
  -- it is of QoS 1, and a host reads a MALFORMED Ack with sequence 0, on the peer's topic if the
  -- payload came on the peer's command topic. Nothing is executed and nothing is handed over.
  pub refuses_payload :
      (which : Bool) (e : PublishEvt) (payload : List ℕ) (rc : Rc) (ss : Sessions) (d : Dedupe)
      (b : n.Bus)
      → (128 < e.len) ⊎ (pb.pb_decode_command payload ≡ none)
      → let (acts, ss', d', b') = after_reading n pb which e payload rc ss d b in
        (ack : List Act) × (acts ≡ puback n pb which e.qos e.message_id ++ ack)
        × Publishes pb ack which
            (if topic_is e.topic peer_topic_command
              then peer_topic_ack
              else (session_of which ss).config.topic_ack)
            0
            malformed
            (if ltb 128 e.len then codes "payload too large" else codes "decode failed")
            none
        × (d' ≡ d)
        × (b' ≡ b)
  unfolding after_reading carry_out
  refuses_payload which e payload rc ss d b why =
      let undecoded : decode_command pb payload (ltb 128 e.len) ≡ (false, zero_command) = elim why [
        | inl long ↦ ground (arith, decode_command_lem pb payload (ltb 128 e.len))
        | inr none_read ↦ ground (arith, decode_command_lem pb payload (ltb 128 e.len))
      ] in
      let text = if ltb 128 e.len then codes "payload too large" else codes "decode failed" in
      let topic =
        if topic_is e.topic peer_topic_command
        then peer_topic_ack
        else (session_of which ss).config.topic_ack in
      let is_text : IsText text = if_both IsText (ltb 128 e.len) (omega arith) (omega arith) in
      rw (undecoded) (
        (publish_ack n pb which topic 0 malformed (some text) none ss).0,
        refl,
        publish_ack-Publishes n pb law which topic 0 malformed text none ss (omega arith) is_text
            (omega arith),
        refl,
        refl,
      )

  module _ (which : Bool) (e : PublishEvt) (payload : List ℕ) (cmd : Command) (ss : Sessions)
      (d : Dedupe) (b : n.Bus) where
    -- A Command for the peer, of no more bytes than the relay carries, that comes on the peer's topic
    -- while the relay takes commands: it is acknowledged to the broker if it is of QoS 1, and then
    -- handed over once, byte for byte and with its own sequence, and that is all the gateway does.
    -- The peer, when it gets these bytes, executes the command as shared/commands.cpp does and
    -- answers with an Ack of the sequence that the gateway took from the envelope.
    pub relays_command :
        (n' : Node)
        → HasTexts n'
        → (send_rc : Rc) (d' : Dedupe) (b' : n'.Bus) → topic_is e.topic peer_topic_command ≡ true
        → e.len ≤ 128
        → length payload ≤ 24
        → pb.pb_decode_command payload ≡ some cmd
        → cmd.sequence < 2 ^ 32
        → let (frames, d'', b'') =
            handle_incoming n' pb (relay_msg_command ∷ payload) send_rc d' b' in
          let result = (handle_command n' cmd d' b').0 in
          (after_reading n pb which e payload success ss d b ≡ (
            puback n pb which e.qos e.message_id ++ (relayed payload cmd.sequence ∷ []),
            ss,
            d,
            b,
          ))
          × Answers pb frames cmd.sequence result.status result.detail (info_if n pb result)
    unfolding after_reading carry_out
    relays_command n' texts send_rc d' b' t small fits dec seq =
        let whole : ltb 128 e.len ≡ false = ground arith in
        (
          rw (
            t,
            whole,
            decode_command-some pb payload cmd dec,
            forward_to_peer_taken payload cmd.sequence ss fits,
          ),
          (handle_incoming-decoded n' pb law texts payload cmd send_rc d' b' dec seq).0,
        )

    -- A message on the peer's command topic, of at most 128 bytes and with a payload of at most 24,
    -- that decodes to a command whose sequence is of 32 bits, when the relay does not take it: it is
    -- acknowledged to the broker all the same if it is of QoS 1, and one more message goes out, on
    -- the peer's Ack topic, from which a host reads a FAILED Ack with the command's sequence and the
    -- text "relay busy".
    pub relay_busy :
        (rc : Rc)
        → is_success rc ≡ false
        → topic_is e.topic peer_topic_command ≡ true
        → e.len ≤ 128
        → length payload ≤ 24
        → pb.pb_decode_command payload ≡ some cmd
        → cmd.sequence < 2 ^ 32
        → (acts : List Act) × ((after_reading n pb which e payload rc ss d b).0
            ≡ puback n pb which e.qos e.message_id ++ acts)
          × Publishes pb acts true peer_topic_ack cmd.sequence failed (codes "relay busy") none
    unfolding after_reading carry_out
    relay_busy rc busy t small fits dec seq =
        let whole : ltb 128 e.len ≡ false = ground arith in
        (
          (publish_ack n pb true peer_topic_ack cmd.sequence failed (some (codes "relay busy")) none
              ss).0,
          rw (
            t,
            whole,
            decode_command-some pb payload cmd dec,
            forward_to_peer_busy payload cmd.sequence rc ss fits busy,
          ),
          publish_ack-Publishes n pb law true peer_topic_ack cmd.sequence failed
              (codes "relay busy") none ss seq (omega arith) (omega arith),
        )

    -- A Command on another topic, whole and decoded, is acknowledged to the broker if it is of QoS 1,
    -- then carried out as shared/commands.cpp does, and a host reads its outcome on the session's Ack
    -- topic: the command's sequence, the status, the text and the information.
    pub executes_command :
        HasTexts n
        → (rc : Rc) → topic_is e.topic peer_topic_command ≡ false
        → e.len ≤ 128
        → pb.pb_decode_command payload ≡ some cmd
        → cmd.sequence < 2 ^ 32
        → let (acts, ss', d', b') = after_reading n pb which e payload rc ss d b in
          let (result, d'', b'') = handle_command n cmd d b in
          (ack : List Act) × (acts ≡ puback n pb which e.qos e.message_id ++ ack)
          × Publishes pb ack which
              (session_of which ss).config.topic_ack
              cmd.sequence
              result.status
              result.detail
              (info_if n pb result)
          × (d' ≡ d'')
          × (b' ≡ b'')
    unfolding after_reading carry_out
    executes_command texts rc t small dec seq =
        let whole : ltb 128 e.len ≡ false = ground arith in
        let result = (handle_command n cmd d b).0 in
        let fits : ResultFits result = handle_command-ResultFits n texts cmd d b in
        let topic = (session_of which ss).config.topic_ack in
        rw (t, whole, decode_command-some pb payload cmd dec)
          (
            (publish_ack n pb which topic cmd.sequence result.status (detail_if n pb result.detail)
                (info_if n pb result) ss).0,
            refl,
            publish_ack_result n pb law which topic cmd.sequence result ss seq fits,
            refl,
            refl,
          )
