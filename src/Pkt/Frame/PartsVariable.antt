-- ===== src/Pkt/Frame/PartsVariable.antt =====
-- The grammar at the wire image of an ACK and of a STREAM frame.
use polygon.Base.{
  ℕ, ◌%◌, Bool, true, false, List, ◌++◌, ◌≡◌, refl, ap, ◌∙◌, length, take_ge, All, All-append,
  IsByte, ◌==◌, arith, bit_or, append_assoc, some, bit_and, not, Bool-cases, inl, inr, ◌/◌,
}
use polygon.Conv.Reads.{parse_varint-varint, parse_bytes-append}
use polygon.Conv.Varint.{IsVarint, varint}
use polygon.Pkt.Frame.{Frame, Stream, Ack}
use polygon.Pkt.Frame.Encode.{stream_flags, flags_of}
use polygon.Pkt.Frame.Decode.{has_bit}
use polygon.Pkt.Frame.DecodeStream.{make_stream}
use polygon.Pkt.Frame.Grammar.{stream_frame}
use polygon.Pkt.Frame.Dispatch.{frame}
use polygon.Pkt.Frame.Wire.{stream_wire, IsStream}
use polygon.Pkt.Frame.WireAck.{ack_wire, IsAck, blocks_wire}
use polygon.Pkt.Frame.Image.{sent}
use polygon.Pkt.Frame.Parts.{ack_blocks-wire, blocks_wire-IsByte, varint_bytes}

module _ (rest : List ℕ) (bytes : All IsByte rest) where
  pub ack_frame-wire : (a : Ack) → IsAck a → frame (ack_wire a ++ rest) ≡ some (Frame.ack a, rest)
  unfolding frame
  ack_frame-wire a h =
      let n : ℕ = length a.blks in
      let hn : IsVarint n = omega (arith, h.few) in
      let b1 : All IsByte (blocks_wire a.blks ++ rest) =
        All-append IsByte (blocks_wire a.blks) rest (blocks_wire-IsByte a.blks h.blks_fit) bytes in
      let r2 : List ℕ = varint a.first_ack_blklen ++ (blocks_wire a.blks ++ rest) in
      let b2 : All IsByte r2 =
        varint_bytes (blocks_wire a.blks ++ rest) b1 a.first_ack_blklen h.first_fits in
      let r3 : List ℕ = varint n ++ r2 in
      let b3 : All IsByte r3 = varint_bytes r2 b2 n hn in
      let r4 : List ℕ = varint a.ack_delay ++ r3 in
      let b4 : All IsByte r4 = varint_bytes r3 b3 a.ack_delay h.delay_fits in
      rw (append_assoc, append_assoc, append_assoc, append_assoc)
        (ground (
          arith,
          parse_varint-varint a.largest_ack r4 h.largest_fits b4,
          parse_varint-varint a.ack_delay r3 h.delay_fits b3,
          parse_varint-varint n r2 hn b2,
          parse_varint-varint a.first_ack_blklen (blocks_wire a.blks ++ rest) h.first_fits b1,
          ack_blocks-wire rest bytes a.blks h.blks_fit,
          take_ge 255 a.blks h.few,
        ))

-- The bits of the type byte of a STREAM frame.
record TypeBits (fin at_start : Bool) : Type 0 where
  is_stream : (bit_or (flags_of fin at_start) 0x10 / 16 % 2 == 1) ≡ true
  has_offset : has_bit (bit_or (flags_of fin at_start) 0x10) 0x04 ≡ not at_start
  has_length : has_bit (bit_or (flags_of fin at_start) 0x10) 0x02 ≡ true
  has_fin : has_bit (bit_or (flags_of fin at_start) 0x10) 0x01 ≡ fin
  flags : bit_and (bit_or (flags_of fin at_start) 0x10) 0xef ≡ flags_of fin at_start

type_bits : (fin at_start : Bool) → TypeBits fin at_start
unfolding flags_of has_bit
type_bits true true = record {
  is_stream = refl;
  has_offset = refl;
  has_length = refl;
  has_fin = refl;
  flags = refl;
}
type_bits true false = record {
  is_stream = refl;
  has_offset = refl;
  has_length = refl;
  has_fin = refl;
  flags = refl;
}
type_bits false true = record {
  is_stream = refl;
  has_offset = refl;
  has_length = refl;
  has_fin = refl;
  flags = refl;
}
type_bits false false = record {
  is_stream = refl;
  has_offset = refl;
  has_length = refl;
  has_fin = refl;
  flags = refl;
}

-- The fields behind the type byte `t`, for a frame with an offset field and for one without.
module _ (rest : List ℕ) (bytes : All IsByte rest) (t : ℕ) (s : Stream) (h : IsStream s) where
  content_bytes : All IsByte (varint (length s.content) ++ (s.content ++ rest))
  content_bytes =
      varint_bytes (s.content ++ rest) (All-append IsByte s.content rest h.content_bytes bytes)
        (length s.content) h.datalen_fits

  without_offset :
      has_bit t 0x04 ≡ false
      → has_bit t 0x02 ≡ true
      → stream_frame t ((varint s.stream_id ++ (varint (length s.content) ++ s.content)) ++ rest)
        ≡ some (make_stream t s.stream_id 0 s.content, rest)
  without_offset e e' =
      let n : ℕ = length s.content in
      rw (append_assoc, append_assoc)
        (ground (
          arith,
          parse_varint-varint s.stream_id (varint n ++ (s.content ++ rest)) h.id_fits content_bytes,
          parse_varint-varint n (s.content ++ rest) h.datalen_fits
              (All-append IsByte s.content rest h.content_bytes bytes),
          parse_bytes-append s.content rest,
        ))

  with_offset :
      has_bit t 0x04 ≡ true
      → has_bit t 0x02 ≡ true
      → stream_frame t (
          (varint s.stream_id ++ (varint s.offset ++ (varint (length s.content) ++ s.content)))
          ++ rest)
        ≡ some (make_stream t s.stream_id s.offset s.content, rest)
  with_offset e e' =
      let n : ℕ = length s.content in
      let r : List ℕ = varint n ++ (s.content ++ rest) in
      rw (append_assoc, append_assoc, append_assoc)
        (ground (
          arith,
          parse_varint-varint s.stream_id (varint s.offset ++ r) h.id_fits
              (varint_bytes r content_bytes s.offset h.offset_fits),
          parse_varint-varint s.offset r h.offset_fits content_bytes,
          parse_varint-varint n (s.content ++ rest) h.datalen_fits
              (All-append IsByte s.content rest h.content_bytes bytes),
          parse_bytes-append s.content rest,
        ))

module _ (rest : List ℕ) (bytes : All IsByte rest) where
  pub stream_frame-wire :
      (s : Stream) → IsStream s → frame (stream_wire s ++ rest) ≡ some (sent (Frame.stream s), rest)
  unfolding frame sent
  stream_frame-wire s h =
      let b : TypeBits s.fin (s.offset == 0) = type_bits s.fin (s.offset == 0) in
      let t : ℕ = bit_or (stream_flags s.fin s.offset) 0x10 in
      elim (Bool-cases (s.offset == 0)) [
        | inl z ↦ ground (
          arith,
          b.is_stream,
          b.has_offset,
          b.has_length,
          b.has_fin,
          b.flags,
          without_offset rest bytes t s h (b.has_offset ∙ ap not z) b.has_length,
        )
        | inr nz ↦ ground (
          arith,
          b.is_stream,
          b.has_offset,
          b.has_length,
          b.has_fin,
          b.flags,
          with_offset rest bytes t s h (b.has_offset ∙ ap not nz) b.has_length,
        )
      ]
