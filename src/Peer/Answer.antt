-- ===== src/Peer/Answer.antt =====
-- The peer's answer to what the gateway sends it.
use climate_node.Common.{
  ℕ, ◌^◌, ◌≤◌, ◌<◌, ◌≡◌, ◌≢◌, refl, List, [], ◌∷◌, Option, none, some, arith, length, if_both,
}
use climate_node.Common.Decimal.{codes}
use climate_node.Zephyr.{Rc}
use climate_node.CanLink.{relay_msg_command, relay_msg_ack}
use climate_node.Commands.{
  Node, Command, CommandResult, DeviceInfo, AckStatus, malformed, Dedupe, handle_command,
}
use climate_node.Commands.Texts.{HasTexts, ResultFits, handle_command-ResultFits}
use climate_node.Protocol.{Nanopb, IsNanopb, IsText, InfoFits, info_of, encode_ack}
use climate_node.Protocol.Acks.{
  host_ack, encode_ack-host_decode_ack, decode_command-some, decode_command-none,
}
use climate_node.Peer.{send_message, info_if, send_ack, handle_incoming}

-- One frame goes out, of the type of an Ack, from whose payload a host reads this Ack.
abbrev pub Answers : Nanopb → List (List ℕ) → ℕ → AckStatus → List ℕ → Option DeviceInfo → Type 0
Answers pb frames seq status detail info =
    (bytes : List ℕ) × (frames ≡ (relay_msg_ack ∷ bytes) ∷ [])
    × (length bytes ≤ pb.ack_size)
    × (pb.host_decode_ack bytes ≡ some (host_ack seq status detail info))

module _ (n : Node) (pb : Nanopb) (law : IsNanopb pb) where
  send_ack-Answers :
      (seq : ℕ) (status : AckStatus) (detail : List ℕ) (info : Option DeviceInfo) (rc : Rc)
      → seq < 2 ^ 32
      → IsText detail
      → InfoFits (info_of info)
      → Answers pb
          (send_ack n pb (encode_ack pb seq status (some detail) info pb.ack_size) rc)
          seq
          status
          detail
          info
  unfolding send_message
  send_ack-Answers seq status detail info rc hs ht hi =
      let sent = encode_ack-host_decode_ack pb law seq status detail info hs ht hi in
      (
        encode_ack pb seq status (some detail) info pb.ack_size,
        ground (arith, sent),
        sent.1,
        sent.2,
      )

  info_if-InfoFits : (r : CommandResult) → InfoFits r.info → InfoFits (info_of (info_if n pb r))
  info_if-InfoFits r h =
      if_both (λ (i : Option DeviceInfo). InfoFits (info_of i)) r.has_info h (omega arith)

  -- A command that does not decode is answered by exactly one frame, an Ack of MALFORMED with
  -- sequence 0; what is no command, or is empty, is not answered. Nothing is executed in either
  -- case, and the record of the last command stays.
  pub handle_incoming-refused :
      (type : ℕ) (payload : List ℕ) (rc : Rc) (d : Dedupe) (b : n.Bus)
      → pb.pb_decode_command payload ≡ none
      → type ≢ relay_msg_command
      → let (frames, d', b') = handle_incoming n pb (relay_msg_command ∷ payload) rc d b in
        Answers pb frames 0 malformed (codes "decode failed") none
        × (d' ≡ d)
        × (b' ≡ b)
        × (handle_incoming n pb (type ∷ payload) rc d b ≡ ([], d, b))
        × (handle_incoming n pb [] rc d b ≡ ([], d, b))
  unfolding handle_incoming
  handle_incoming-refused type payload rc d b e other =
      rw (decode_command-none pb payload e, handle_incoming)
        (
          send_ack-Answers 0 malformed (codes "decode failed") none rc (omega arith) (omega arith)
              (omega arith),
          refl,
          refl,
          ground arith,
          refl,
        )

  module _ (texts : HasTexts n) where
    -- A payload that decodes as a Command is carried out as shared/commands.cpp does, and answered by
    -- exactly one frame, from which a host reads the command's own sequence and the outcome: the
    -- status, the text cut to its field, and the device's information if there is some.
    pub handle_incoming-decoded :
        (payload : List ℕ) (cmd : Command) (rc : Rc) (d : Dedupe) (b : n.Bus)
        → pb.pb_decode_command payload ≡ some cmd
        → cmd.sequence < 2 ^ 32
        → let (frames, d', b') = handle_incoming n pb (relay_msg_command ∷ payload) rc d b in
          let (result, d'', b'') = handle_command n cmd d b in
          Answers pb frames cmd.sequence result.status result.detail (info_if n pb result)
          × (d' ≡ d'')
          × (b' ≡ b'')
    unfolding handle_incoming
    handle_incoming-decoded payload cmd rc d b e small =
        let result = (handle_command n cmd d b).0 in
        let fits : ResultFits result = handle_command-ResultFits n texts cmd d b in
        rw (decode_command-some pb payload cmd e, handle_incoming)
          (
            send_ack-Answers cmd.sequence result.status result.detail (info_if n pb result) rc small
                fits.0 (info_if-InfoFits result fits.1),
            refl,
            refl,
          )
