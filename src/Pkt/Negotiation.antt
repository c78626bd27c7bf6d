-- ===== src/Pkt/Negotiation.antt =====
-- Version Negotiation packets: `ngtcp2_pkt_write_version_negotiation` and
-- `ngtcp2_pkt_decode_version_negotiation`, and what ngtcp2_conn.c makes of one that comes in.
pub mod RoundTrip
use polygon.Base.{
  ◌-◌, not, Option, none, some, if◌then◌else◌, proto, ℕ, ◌+◌, ◌*◌, ◌%◌, ◌^◌, List, [], ◌∷◌, ◌++◌,
  length, ltb, ◌==◌, Result, ok, err, fault, ◌>>=◌, ◌>>◌, assert, fail_if, bit_or, nobuf,
}
use polygon.Pkt.Header.{PktHd, decode_hd_long}
use polygon.Pkt.Number.{adjust_pkt_num}
use polygon.Conv.{advance, get_uint32, put_uint32be, put_uint64be}

-- The loop over the supported versions.
unfoldable pub put_versions : List ℕ → List ℕ
put_versions [] = []
put_versions (v ∷ sv) = put_uint32be v ++ put_versions sv

unfoldable pub write_version_negotiation : ℕ → ℕ → ℕ → List ℕ → Result (ℕ × List ℕ)
unfolding put_versions
write_version_negotiation destlen unused_random conn_id sv = do
  let len = (1 + 8 + 4 + length sv * 4) % 2 ^ 64
  fail_if (ltb destlen len) nobuf
  let bytes =
      bit_or 0x80 unused_random ∷ (put_uint64be conn_id ++ (put_uint32be 0 ++ put_versions sv))
  assert (length bytes == len)
  ok (len, bytes)

-- The loop, four bytes at a time, until the end is met exactly.
unfoldable pub get_versions : List ℕ → Result (List ℕ)
get_versions [] = ok []
get_versions (a ∷ b ∷ c ∷ d ∷ p) = do
  v ← get_uint32 (a ∷ b ∷ c ∷ d ∷ p)
  sv ← get_versions p
  ok (v ∷ sv)
get_versions p = fault

unfoldable pub decode_version_negotiation : List ℕ → Result (List ℕ)
unfolding get_versions
decode_version_negotiation payload = do assert (length payload % 4 == 0); get_versions payload

-- The long header and the payload of a packet of the handshake, as `conn_recv_handshake_pkt` takes them apart: none
-- if the packet is of another version than the connection, and so is to be ignored. A packet of version 0 has no
-- packet number, and its payload begins where that would stand.
unfoldable pub handshake_payload : ℕ → ℕ → List ℕ → Result (Option (PktHd × List ℕ))
handshake_payload version max_rx_pkt_num pkt = do
  (hd, nread) ← decode_hd_long pkt
  payload ← advance (if hd.version == 0 then nread - 4 else nread) pkt
  let adjusted = adjust_pkt_num max_rx_pkt_num hd.pkt_num 32
  ok (
      if hd.version == 0
      then some (record hd { type = 0x00; pkt_num = 0 }, payload)
      else if not (version == hd.version)
      then none
      else some (record hd { pkt_num = adjusted }, payload))

-- The versions that `conn_on_version_negotiation` hands to the application, which has set the function, where there
-- is memory. The function gets the array of sixteen versions also where more were decoded elsewhere: that is a fault.
unfoldable pub conn_on_version_negotiation : List ℕ → Result (List ℕ)
conn_on_version_negotiation payload = do
  fail_if (not (length payload % 4 == 0)) proto
  sv ← decode_version_negotiation payload
  assert (not (ltb 64 (length payload)))
  ok sv
