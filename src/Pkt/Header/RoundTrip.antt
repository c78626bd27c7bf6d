-- ===== src/Pkt/Header/RoundTrip.antt =====
-- A packet header that is written is read back.
use polygon.Base.{
  ℕ, ◌+◌, ◌%◌, ◌^◌, ◌<◌, true, List, ◌∷◌, ◌++◌, length, ok, drop-drop, bit_and, bit_or, ◌≡◌, refl,
  ap, ◌∙◌, length-append, append_assoc, arith, IsU32, IsU64, drop,
}
use polygon.Base.Bits.{all_below, table}
use polygon.Conv.{advance, deref, put_be}
use polygon.Conv.Words.{get_be, get_uint64-eq, get_uint32-eq}
use polygon.Conv.Words.{length-put_be, get_be-put_be, drop-put_be}
use polygon.Conv.Reader.{advance-eq}
use polygon.Pkt.Frame.Decode.{has_bit}
use polygon.Pkt.Header.{
  PktHd, is_long_type, decode_hd, decode_hd_long, encode_hd_long, pkt_hd_init, long_type,
}

-- A long header as it is read back: 32 bits of the packet number.
abbrev pub long_sent : PktHd → PktHd
long_sent hd = record hd { flags = 0x01; pkt_num = hd.pkt_num % 2 ^ 32 }

long_byte : (t : ℕ) → t < 128 → bit_and (bit_or 0x80 t) 0x7f ≡ t
unfolding all_below
long_byte = table 128 _ _ refl

long_form : (t : ℕ) → t < 128 → bit_and (bit_or 0x80 t) 0x80 ≡ 0x80
unfolding all_below
long_form = table 128 _ _ refl

encode_hd_long_parts :
    (outlen n : ℕ) (hd : PktHd) (bytes : List ℕ)
    → encode_hd_long outlen hd ≡ ok (n, bytes)
    → (n ≡ 17)
      × (bytes
          ≡ bit_or 0x80 hd.type
            ∷ (put_be 8 hd.conn_id ++ (put_be 4 hd.version ++ put_be 4 (hd.pkt_num % 2 ^ 32))))
unfolding encode_hd_long
encode_hd_long_parts outlen n hd bytes e = ground arith

-- The four fields behind the type byte, as `decode_hd_long` reads them.
module _ (c v p : ℕ) (rest : List ℕ) where
  long_fields : List ℕ
  long_fields = put_be 8 c ++ (put_be 4 v ++ (put_be 4 p ++ rest))

  at_version : drop 8 long_fields ≡ put_be 4 v ++ (put_be 4 p ++ rest)
  unfolding long_fields
  at_version = drop-put_be 8 c (put_be 4 v ++ (put_be 4 p ++ rest))

  at_pkt_num : drop 12 long_fields ≡ put_be 4 p ++ rest
  at_pkt_num =
      drop-drop 8 4 long_fields ∙ ap (drop 4) at_version ∙ drop-put_be 4 v (put_be 4 p ++ rest)

  length-long_fields : length long_fields ≡ 16 + length rest
  unfolding long_fields
  length-long_fields = omega (
    arith,
    length-append (put_be 8 c) (put_be 4 v ++ (put_be 4 p ++ rest)),
    length-append (put_be 4 v) (put_be 4 p ++ rest),
    length-append (put_be 4 p) rest,
    length-put_be 8 c,
    length-put_be 4 v,
    length-put_be 4 p,
  )

  decode_long_fields :
      (t : ℕ)
      → is_long_type t ≡ true
      → t < 128
      → c < 2 ^ 64
      → v < 2 ^ 32
      → p < 2 ^ 32
      → decode_hd (bit_or 0x80 t ∷ long_fields) ≡ ok (pkt_hd_init 0x01 t c p v, 17)
  unfolding decode_hd decode_hd_long deref advance long_type has_bit
  decode_long_fields t ht small hc hv hp =
      let c8 : get_be 8 0 long_fields ≡ ok c =
        unfold long_fields in get_be-put_be 8 c (put_be 4 v ++ (put_be 4 p ++ rest)) hc in
      ground (
        arith,
        long_byte t small,
        long_form t small,
        advance-eq 8 long_fields (omega (arith, length-long_fields)),
        advance-eq 12 long_fields (omega (arith, length-long_fields)),
        at_version,
        at_pkt_num,
        length-long_fields,
        c8,
        get_uint64-eq long_fields,
        get_uint32-eq (put_be 4 v ++ (put_be 4 p ++ rest)),
        get_uint32-eq (put_be 4 p ++ rest),
        get_be-put_be 4 v (put_be 4 p ++ rest) hv,
        get_be-put_be 4 p rest hp,
      )

long_type-lt : (t : ℕ) → is_long_type t ≡ true → t < 128
unfolding is_long_type
long_type-lt t h = ground arith

-- A long header of one of the four types that `ngtcp2_pkt_encode_hd_long` writes is read back by
-- `ngtcp2_pkt_decode_hd`, with the low 32 bits of its packet number, whatever follows it.
pub decode_hd-encode_hd_long :
    (outlen n : ℕ) (hd : PktHd) (bytes rest : List ℕ)
    → is_long_type hd.type ≡ true
    → IsU64 hd.conn_id
    → IsU32 hd.version
    → encode_hd_long outlen hd ≡ ok (n, bytes)
    → decode_hd (bytes ++ rest) ≡ ok (long_sent hd, n)
decode_hd-encode_hd_long outlen n hd bytes rest ht hc hv e =
    let (en, eb) = encode_hd_long_parts outlen n hd bytes e in
    let p : ℕ = hd.pkt_num % 2 ^ 32 in
    rw (en, eb)
      (rw (append_assoc, append_assoc)
        (unfold long_fields pkt_hd_init in
          decode_long_fields hd.conn_id hd.version p rest hd.type ht (long_type-lt hd.type ht) hc hv
            (omega arith)))
