-- ===== src/Gateway/Incoming/Answers.antt =====
-- The Acks that the gateway publishes, as a host reads them.
use climate_node.Common.{
  ℕ, ◌^◌, ◌<◌, ◌≡◌, refl, Bool, false, List, [], ◌∷◌, Option, some, if_both, arith,
}
use climate_node.Commands.{Node, CommandResult, DeviceInfo, AckStatus}
use climate_node.Commands.Texts.{ResultFits}
use climate_node.Protocol.{Nanopb, IsNanopb, IsText, InfoFits, info_of, encode_ack, ack_message}
use climate_node.Protocol.Acks.{host_ack, encode_ack-host_decode_ack}
use climate_node.Gateway.{at_least_once, mqtt_publish, publish, next_id}
use climate_node.Gateway.Incoming.{Sessions, session_of, Act, call, publish_ack, detail_if, info_if}

-- One message goes out, at least once and not retained, from which a host reads this Ack.
abbrev pub Publishes :
    Nanopb → List Act → Bool → List ℕ → ℕ → AckStatus → List ℕ → Option DeviceInfo → Type 0
Publishes pb acts which topic seq status detail info =
    (bytes : List ℕ) × (id : ℕ) × (acts
      ≡ call which (
          mqtt_publish (record {
            topic = topic;
            payload = bytes;
            qos = at_least_once;
            message_id = id;
            retain = false;
          }))
        ∷ [])
    × (pb.host_decode_ack bytes ≡ some (host_ack seq status detail info))

module _ (n : Node) (pb : Nanopb) (law : IsNanopb pb) where
  pub publish_ack-Publishes :
      (which : Bool) (topic : List ℕ) (seq : ℕ) (status : AckStatus) (detail : List ℕ)
      (info : Option DeviceInfo) (ss : Sessions)
      → seq < 2 ^ 32
      → IsText detail
      → InfoFits (info_of info)
      → Publishes pb
          (publish_ack n pb which topic seq status (some detail) info ss).0
          which
          topic
          seq
          status
          detail
          info
  unfolding publish_ack publish
  publish_ack-Publishes which topic seq status detail info ss hs ht hi =
      let sent = encode_ack-host_decode_ack pb law seq status detail info hs ht hi in
      (
        encode_ack pb seq status (some detail) info pb.ack_size,
        next_id (session_of which ss).next_message_id,
        ground (arith, sent),
        sent.2,
      )

  encode_ack-detail_if :
      (seq : ℕ) (status : AckStatus) (detail : List ℕ) (info : Option DeviceInfo)
      → encode_ack pb seq status (detail_if n pb detail) info pb.ack_size
        ≡ encode_ack pb seq status (some detail) info pb.ack_size
  unfolding encode_ack ack_message
  encode_ack-detail_if seq status [] info = refl
  encode_ack-detail_if seq status (c ∷ cs) info = refl

  pub publish_ack_result :
      (which : Bool) (topic : List ℕ) (seq : ℕ) (r : CommandResult) (ss : Sessions)
      → seq < 2 ^ 32
      → ResultFits r
      → Publishes pb
          (publish_ack n pb which topic seq r.status
            (detail_if n pb r.detail)
            (info_if n pb r)
            ss).0
          which
          topic
          seq
          r.status
          r.detail
          (info_if n pb r)
  unfolding publish_ack
  publish_ack_result which topic seq r ss hs fits =
      let info : InfoFits (info_of (info_if n pb r)) =
        if_both (λ (i : Option DeviceInfo). InfoFits (info_of i)) r.has_info fits.1 (omega arith) in
      let plain =
        publish_ack-Publishes which topic seq r.status r.detail (info_if n pb r) ss hs fits.0
          info in
      rw (encode_ack-detail_if seq r.status r.detail (info_if n pb r)) plain
