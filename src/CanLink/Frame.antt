-- ===== src/CanLink/Frame.antt =====
-- The heartbeat frame of shared/can_link.h: what survives the wire, and what is refused.
use climate_node.Common.{ℕ, ◌<◌, ◌^◌, ◌≡◌, ◌≢◌, ◌⊎◌, ◌↔◌, none, some, List, [], ◌∷◌, arith, get_or}
use climate_node.CanLink.{
  Heartbeat, heartbeat_layout_version, heartbeat_len, heartbeat_pack, heartbeat_unpack,
}

-- A beat whose uptime fits 32 bits and whose frame arrives with its full length is read back as sent.
pub heartbeat_unpack-heartbeat_pack :
    (hb : Heartbeat)
    → hb.uptime_s < 2 ^ 32
    → heartbeat_unpack (heartbeat_pack hb) heartbeat_len ≡ some hb
unfolding heartbeat_pack heartbeat_unpack
heartbeat_unpack-heartbeat_pack hb h = ground arith

-- A frame is refused exactly when its length is not 8, its version byte not 1, or its state byte
-- above 3.
pub heartbeat_unpack_refuses :
    (frame : List ℕ) (len : ℕ)
    → (heartbeat_unpack frame len ≡ none) ↔ (
        (len ≢ heartbeat_len)
        ⊎ (get_or frame 0 0 ≢ heartbeat_layout_version)
        ⊎ (3 < get_or frame 1 0))
unfolding heartbeat_unpack
heartbeat_unpack_refuses frame len = ground arith

-- Whatever eight bytes are accepted, packing what was read gives them again, but for the reserved
-- byte 7, which a sender sets to 0xff and a reader does not look at.
pub heartbeat_pack-heartbeat_unpack :
    (version state u0 u1 u2 u3 seq reserved : ℕ) {hb : Heartbeat}
    → u0 < 256
    → u1 < 256
    → u2 < 256
    → u3 < 256
    → heartbeat_unpack (version ∷ state ∷ u0 ∷ u1 ∷ u2 ∷ u3 ∷ seq ∷ reserved ∷ []) heartbeat_len
      ≡ some hb
    → heartbeat_pack hb ≡ version ∷ state ∷ u0 ∷ u1 ∷ u2 ∷ u3 ∷ seq ∷ 0xff ∷ []
unfolding heartbeat_pack heartbeat_unpack
heartbeat_pack-heartbeat_unpack version state u0 u1 u2 u3 seq reserved h0 h1 h2 h3 e = ground arith
