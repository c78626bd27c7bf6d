-- ===== src/Pkt/Negotiation/RoundTrip.antt =====
-- A Version Negotiation packet that is written is read back.
use polygon.Base.{ℕ, List, ◌∷◌, ◌++◌, bit_or}
use polygon.Conv.{put_be}
use polygon.Pkt.Negotiation.{put_versions}

-- The bytes of the packet.
abbrev packet : ℕ → ℕ → List ℕ → List ℕ
packet unused_random conn_id sv =
    bit_or 0x80 unused_random ∷ (put_be 8 conn_id ++ (put_be 4 0 ++ put_versions sv))
