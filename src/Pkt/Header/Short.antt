-- ===== src/Pkt/Header/Short.antt =====
-- A short packet header that is written is read back.
use polygon.Base.{
  ◌∙◌, ℕ, ◌+◌, ◌%◌, ◌^◌, Bool, true, false, not, List, [], ◌∷◌, ◌++◌, length, ◌==◌, ok, Bool-cases,
  Error, unknown_pkt_type, subst, bit_and, if◌then◌else◌, ◌≡◌, refl, sym, length-append,
  append_assoc, invalid_argument, ◌⊎◌, inl, inr, arith, IsU64,
}
use polygon.Conv.Words.{get_uint64-eq, get_uint32-eq, get_uint16-eq}
use polygon.Conv.{advance, deref, put_be}
use polygon.Conv.Words.{length-put_be, get_be-put_be, drop-put_be}
use polygon.Conv.Reader.{advance-eq}
use polygon.Pkt.Frame.Decode.{has_bit}
use polygon.Pkt.Header.{
  PktHd, decode_hd, decode_hd_short, encode_hd_short, pkt_hd_init, pkt_num_len, get_pkt_num,
}
use polygon.Pkt.Header.{short_byte, put_pkt_num, short_flags}

-- The bits of the packet number that are sent.
unfoldable pub kept_pkt_num : ℕ → ℕ → ℕ
kept_pkt_num type p =
    if type == 0x1f then p % 2 ^ 8 else if type == 0x1e then p % 2 ^ 16 else p % 2 ^ 32

-- The type byte, read back.
record ShortBits (t : ℕ) (need kp : Bool) : Type 0 where
  short_form : has_bit (short_byte t need kp) 0x80 ≡ false
  omits : has_bit (short_byte t need kp) 0x40 ≡ not need
  phase : has_bit (short_byte t need kp) 0x20 ≡ kp
  type : bit_and (short_byte t need kp) 0x1f ≡ t

-- A type that a short header may have, and its packet number.
record ShortKind (t : ℕ) : Type 0 where
  len : ℕ
  pkt_len : (e : Error) → pkt_num_len t e ≡ ok len
  put_len : (p : ℕ) → length (put_pkt_num t p) ≡ len
  back : (p : ℕ) (rest : List ℕ) → get_pkt_num t (put_pkt_num t p ++ rest) ≡ ok (kept_pkt_num t p)
  bits : (need kp : Bool) → ShortBits t need kp

same_bits :
    (need kp : Bool) → ShortBits 0x1f need kp × ShortBits 0x1e need kp × ShortBits 0x1d need kp
unfolding short_byte has_bit
same_bits true true = ground arith
same_bits true false = ground arith
same_bits false true = ground arith
same_bits false false = ground arith

kind_1f : ShortKind 0x1f
unfolding pkt_num_len put_pkt_num get_pkt_num kept_pkt_num deref
kind_1f = record {
  len = 1;
  pkt_len = λ e. refl;
  put_len = λ p. refl;
  back = λ p rest. refl;
  bits = λ need kp. (same_bits need kp).0;
}

kind_1e : ShortKind 0x1e
unfolding pkt_num_len put_pkt_num get_pkt_num kept_pkt_num
kind_1e = record {
  len = 2;
  pkt_len = λ e. refl;
  put_len = λ p. length-put_be 2 (p % 2 ^ 16);
  back = λ p rest.
      get_uint16-eq (put_be 2 (p % 2 ^ 16) ++ rest)
      ∙ get_be-put_be 2 (p % 2 ^ 16) rest (omega arith);
  bits = λ need kp. (same_bits need kp).1;
}

kind_1d : ShortKind 0x1d
unfolding pkt_num_len put_pkt_num get_pkt_num kept_pkt_num
kind_1d = record {
  len = 4;
  pkt_len = λ e. refl;
  put_len = λ p. length-put_be 4 (p % 2 ^ 32);
  back = λ p rest.
      get_uint32-eq (put_be 4 (p % 2 ^ 32) ++ rest)
      ∙ get_be-put_be 4 (p % 2 ^ 32) rest (omega arith);
  bits = λ need kp. (same_bits need kp).2;
}

-- The three types.
abbrev pub IsShortType : ℕ → Type 0
IsShortType t = (t ≡ 0x1f) ⊎ (t ≡ 0x1e) ⊎ (t ≡ 0x1d)

short_kind : (t : ℕ) → IsShortType t → ShortKind t
short_kind t (inl e) = subst ShortKind (sym e) kind_1f
short_kind t (inr (inl e)) = subst ShortKind (sym e) kind_1e
short_kind t (inr (inr e)) = subst ShortKind (sym e) kind_1d

-- A short header as it is read back: what the type byte says of its flags, the connection id unless it
-- is left out, the low bits of the packet number, no version.
abbrev pub short_sent : PktHd → PktHd
short_sent hd = record {
  flags = short_flags (has_bit hd.flags 0x02) (has_bit hd.flags 0x04);
  type = hd.type;
  conn_id = if has_bit hd.flags 0x02 then 0 else hd.conn_id;
  pkt_num = kept_pkt_num hd.type hd.pkt_num;
  version = 0;
}

-- What `encode_hd_short` writes.
abbrev short_bytes : PktHd → List ℕ
short_bytes hd =
    let need = not (has_bit hd.flags 0x02) in
    short_byte hd.type need (has_bit hd.flags 0x04)
    ∷ ((if need then put_be 8 hd.conn_id else []) ++ put_pkt_num hd.type hd.pkt_num)

encode_hd_short_parts :
    (outlen n : ℕ) (hd : PktHd) (bytes : List ℕ) (k : ShortKind hd.type)
    → encode_hd_short outlen hd ≡ ok (n, bytes)
    → (n ≡ (if has_bit hd.flags 0x02 then 1 else 9) + k.len) × (bytes ≡ short_bytes hd)
unfolding encode_hd_short
encode_hd_short_parts outlen n hd bytes k e = ground (arith, k.pkt_len invalid_argument)

decode_short_bytes :
    (hd : PktHd) (rest : List ℕ) (k : ShortKind hd.type)
    → IsU64 hd.conn_id
    → decode_hd (short_bytes hd ++ rest)
      ≡ ok (short_sent hd, (if has_bit hd.flags 0x02 then 1 else 9) + k.len)
unfolding decode_hd decode_hd_short deref advance pkt_hd_init
decode_short_bytes hd rest k hc = elim (Bool-cases (has_bit hd.flags 0x02)) [
  | inl omit ↦
      let b : ShortBits hd.type false (has_bit hd.flags 0x04) =
        k.bits false (has_bit hd.flags 0x04) in
      ground (
        arith,
        b.short_form,
        b.omits,
        b.phase,
        b.type,
        k.pkt_len unknown_pkt_type,
        k.put_len hd.pkt_num,
        k.back hd.pkt_num rest,
        length-append (put_pkt_num hd.type hd.pkt_num) rest,
      )
  | inr need ↦
      let b : ShortBits hd.type true (has_bit hd.flags 0x04) =
        k.bits true (has_bit hd.flags 0x04) in
      let q : List ℕ = put_pkt_num hd.type hd.pkt_num ++ rest in
      rw (need, append_assoc)
        (ground (
          arith,
          b.short_form,
          b.omits,
          b.phase,
          b.type,
          k.pkt_len unknown_pkt_type,
          k.put_len hd.pkt_num,
          k.back hd.pkt_num rest,
          length-append (put_pkt_num hd.type hd.pkt_num) rest,
          length-append (put_be 8 hd.conn_id) q,
          length-put_be 8 hd.conn_id,
          get_be-put_be 8 hd.conn_id q hc,
          get_uint64-eq (put_be 8 hd.conn_id ++ q),
          advance-eq 8 (put_be 8 hd.conn_id ++ q),
          drop-put_be 8 hd.conn_id q,
        ))
]

-- A short header that `ngtcp2_pkt_encode_hd_short` writes is read back by `ngtcp2_pkt_decode_hd` as
-- `short_sent` says, whatever follows it.
pub decode_hd-encode_hd_short :
    (outlen n : ℕ) (hd : PktHd) (bytes rest : List ℕ)
    → IsShortType hd.type
    → IsU64 hd.conn_id
    → encode_hd_short outlen hd ≡ ok (n, bytes)
    → decode_hd (bytes ++ rest) ≡ ok (short_sent hd, n)
decode_hd-encode_hd_short outlen n hd bytes rest t hc e =
    let k : ShortKind hd.type = short_kind hd.type t in
    let (en, eb) = encode_hd_short_parts outlen n hd bytes k e in
    rw (en, eb) (decode_short_bytes hd rest k hc)
