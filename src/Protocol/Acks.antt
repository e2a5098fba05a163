-- ===== src/Protocol/Acks.antt =====
-- What a host reads of an Ack that the firmware encoded, and what `decode_command` leaves behind.
use climate_node.Common.{
  ℕ, zero, suc, ◌<◌, ◌≤◌, ◌≡◌, refl, Bool, true, false, Option, none, some, List, [], arith, length,
  length-take, take, ◌^◌, ◌∷◌, ◌⊎◌,
}
use climate_node.Commands.{AckStatus, DeviceInfo, Command}
use climate_node.Protocol.{
  AckMessage, Nanopb, IsNanopb, InfoFits, AckFits, ack_message, encode_ack, decode_command,
  zero_command, IsText, info_of, has_info_of,
}

pub IsText-take : (n : ℕ) (text : List ℕ) → IsText text → IsText (take n text)
IsText-take zero text h = tt
IsText-take (suc n) [] h = tt
IsText-take (suc n) (c ∷ cs) h = (h.0, IsText-take n cs h.1)

ack_message-AckFits :
    (seq : ℕ) (status : AckStatus) (detail : List ℕ) (info : Option DeviceInfo)
    → seq < 2 ^ 32
    → IsText detail
    → InfoFits (info_of info)
    → AckFits (ack_message seq status (some detail) info)
unfolding ack_message
ack_message-AckFits seq status detail none hs ht hi =
    (hs, omega (arith, length-take 47 detail), IsText-take 47 detail ht, hi, λ _. refl)
ack_message-AckFits seq status detail (some info) hs ht hi =
    (hs, omega (arith, length-take 47 detail), IsText-take 47 detail ht, hi, λ e. cc)

-- The Ack that a host should read.
abbrev pub host_ack : ℕ → AckStatus → List ℕ → Option DeviceInfo → AckMessage
host_ack seq status detail info = record {
  schema_version = 1;
  sequence = seq;
  status = status;
  detail = take 47 detail;
  has_device_info = has_info_of info;
  device_info = info_of info;
}

-- An Ack with any detail text, or none, and the device's information, or none, is encoded in a
-- buffer of the generated size, into at least one byte and no more than the buffer holds. The host
-- reads the sequence and the status as given, the text cut to what its field holds, and the
-- information exactly if there is some.
pub encode_ack-host_decode_ack :
    (pb : Nanopb)
    → IsNanopb pb
    → (seq : ℕ) (status : AckStatus) (detail : List ℕ) (info : Option DeviceInfo) → seq < 2 ^ 32
    → IsText detail
    → InfoFits (info_of info)
    → let bytes = encode_ack pb seq status (some detail) info pb.ack_size in
      (0 < length bytes)
      × (length bytes ≤ pb.ack_size)
      × (pb.host_decode_ack bytes ≡ some (host_ack seq status detail info))
unfolding encode_ack ack_message
encode_ack-host_decode_ack pb law seq status detail info hs ht hi =
    let fits : AckFits (ack_message seq status (some detail) info) =
      ack_message-AckFits seq status detail info hs ht hi in
    let (bytes, e, pos, small, reads) =
      law.ack_encodes (ack_message seq status (some detail) info) fits (omega arith) in
    rw (e, reads) (pos, small, refl)

-- A payload that the caller could not keep whole is never decoded, and whenever the result is false
-- the command is left zero-initialised; a result of true hands on what nanopb decoded.
pub decode_command_lem :
    (pb : Nanopb) (buf : List ℕ) (oversized : Bool)
    → let (good, out) = decode_command pb buf oversized in
      ((good ≡ false)
        × (out ≡ zero_command)
        × ((oversized ≡ true) ⊎ (pb.pb_decode_command buf ≡ none)))
      ⊎ ((good ≡ true) × (oversized ≡ false) × (pb.pb_decode_command buf ≡ some out))
unfolding decode_command
decode_command_lem pb buf oversized = ground arith

pub decode_command-some :
    (pb : Nanopb) (buf : List ℕ) (cmd : Command)
    → pb.pb_decode_command buf ≡ some cmd
    → decode_command pb buf false ≡ (true, cmd)
unfolding decode_command
decode_command-some pb buf cmd e = ground arith

pub decode_command-none :
    (pb : Nanopb) (buf : List ℕ)
    → pb.pb_decode_command buf ≡ none
    → decode_command pb buf false ≡ (false, zero_command)
unfolding decode_command
decode_command-none pb buf e = ground arith
