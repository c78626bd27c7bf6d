-- ===== src/Pkt/Header.antt =====
-- The packet headers of ngtcp2_pkt.c, long and short.
pub mod Laws
pub mod RoundTrip
pub mod Short
use polygon.Base.{
  ℕ, ◌+◌, ◌%◌, ◌^◌, Bool, true, false, not, ◌||◌, List, [], ◌∷◌, ◌++◌, length, ltb, ◌==◌, Result,
  ok, err, fault, ◌>>=◌, ◌>>◌, assert, fail_if, bit_and, bit_or, if◌then◌else◌, invalid_argument,
  unknown_pkt_type, nobuf, Error,
}
use polygon.Conv.{
  advance, deref, get_uint16, get_uint32, get_uint64, put_uint16be, put_uint32be, put_uint64be,
}
use polygon.Pkt.Frame.Decode.{has_bit}

-- `ngtcp2_pkt_hd`; `ngtcp2_pkt_hd_init` is its constructor.
pub record PktHd : Type 0 where
  pub flags : ℕ
  pub type : ℕ
  pub conn_id : ℕ
  pub pkt_num : ℕ
  pub version : ℕ

unfoldable pub pkt_hd_init : ℕ → ℕ → ℕ → ℕ → ℕ → PktHd
pkt_hd_init flags type conn_id pkt_num version = record {
  flags = flags;
  type = type;
  conn_id = conn_id;
  pkt_num = pkt_num;
  version = version;
}

-- NGTCP2_PKT_INITIAL, _RETRY, _HANDSHAKE, _0RTT_PROTECTED.
unfoldable pub is_long_type : ℕ → Bool
is_long_type type = type == 0x7f || (type == 0x7e || (type == 0x7d || type == 0x7c))

-- A type that is none of these stands for version negotiation, if the version is 0.
unfoldable pub long_type : ℕ → ℕ → Result ℕ
unfolding is_long_type
long_type type version =
    if is_long_type type then ok type else if version == 0 then ok 0x00 else err unknown_pkt_type

unfoldable pub decode_hd_long : List ℕ → Result (PktHd × ℕ)
unfolding long_type
decode_hd_long pkt = do
  fail_if (ltb (length pkt) 17) invalid_argument
  b ← deref pkt
  fail_if (not (has_bit b 0x80)) invalid_argument
  q ← advance 9 pkt
  version ← get_uint32 q
  type ← long_type (bit_and b 0x7f) version
  p ← advance 1 pkt
  conn_id ← get_uint64 p
  r ← advance 13 pkt
  pkt_num ← get_uint32 r
  ok (pkt_hd_init 0x01 type conn_id pkt_num version, 17)

-- The bytes of the packet number, for NGTCP2_PKT_01, _02 and _03.
unfoldable pub pkt_num_len : ℕ → Error → Result ℕ
pkt_num_len type e =
    if type == 0x1f
    then ok 1
    else if type == 0x1e
    then ok 2
    else if type == 0x1d
    then ok 4
    else err e

-- The packet number at `p`.
unfoldable pub get_pkt_num : ℕ → List ℕ → Result ℕ
get_pkt_num type p =
    if type == 0x1f then deref p else if type == 0x1e then get_uint16 p else get_uint32 p

-- NGTCP2_PKT_FLAG_OMIT_CONN_ID and NGTCP2_PKT_FLAG_KEY_PHASE.
unfoldable pub short_flags : Bool → Bool → ℕ
short_flags omit key_phase =
    let flags = if omit then 0x02 else 0 in if key_phase then bit_or flags 0x04 else flags

unfoldable pub decode_hd_short : List ℕ → Result (PktHd × ℕ)
unfolding pkt_num_len get_pkt_num short_flags
decode_hd_short pkt = do
  b ← deref pkt
  fail_if (has_bit b 0x80) invalid_argument
  let omit = has_bit b 0x40
  let flags = short_flags omit (has_bit b 0x20)
  let type = bit_and b 0x1f
  n ← pkt_num_len type unknown_pkt_type
  let len = (if omit then 1 else 1 + 8) + n
  fail_if (ltb (length pkt) len) invalid_argument
  p ← advance 1 pkt
  conn_id ← (if omit then ok 0 else get_uint64 p)
  q ← (if omit then ok p else advance 8 p)
  pkt_num ← get_pkt_num type q
  ok (pkt_hd_init flags type conn_id pkt_num 0, len)

unfoldable pub decode_hd : List ℕ → Result (PktHd × ℕ)
decode_hd pkt = do
  fail_if (length pkt == 0) invalid_argument
  b ← deref pkt
  if has_bit b 0x80 then decode_hd_long pkt else decode_hd_short pkt

-- The encoders give the length that they return with the bytes that they write.
unfoldable pub encode_hd_long : ℕ → PktHd → Result (ℕ × List ℕ)
encode_hd_long outlen hd = do
  fail_if (ltb outlen 17) nobuf
  let bytes =
      bit_or 0x80 hd.type
      ∷ (put_uint64be hd.conn_id ++ (put_uint32be hd.version ++ put_uint32be (hd.pkt_num % 2 ^ 32)))
  assert (length bytes == 17)
  ok (17, bytes)

unfoldable pub put_pkt_num : ℕ → ℕ → List ℕ
put_pkt_num type pkt_num =
    if type == 0x1f
    then (pkt_num % 2 ^ 8) ∷ []
    else if type == 0x1e
    then put_uint16be (pkt_num % 2 ^ 16)
    else put_uint32be (pkt_num % 2 ^ 32)

unfoldable pub short_byte : ℕ → Bool → Bool → ℕ
short_byte type need_conn_id key_phase =
    let b = if need_conn_id then type else bit_or type 0x40 in
    if key_phase then bit_or b 0x20 else b

unfoldable pub encode_hd_short : ℕ → PktHd → Result (ℕ × List ℕ)
unfolding pkt_num_len put_pkt_num short_byte
encode_hd_short outlen hd = do
  let need_conn_id = not (has_bit hd.flags 0x02)
  n ← pkt_num_len hd.type invalid_argument
  let len = (if need_conn_id then 1 + 8 else 1) + n
  fail_if (ltb outlen len) nobuf
  let bytes =
      short_byte hd.type need_conn_id (has_bit hd.flags 0x04)
      ∷ ((if need_conn_id then put_uint64be hd.conn_id else []) ++ put_pkt_num hd.type hd.pkt_num)
  assert (length bytes == len)
  ok (len, bytes)
