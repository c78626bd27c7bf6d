-- ===== src/Pkt/Frame/RoundTrip.antt =====
-- The round trip through `ngtcp2_pkt_encode_frame` and `ngtcp2_pkt_decode_frame`.
use polygon.Base.{
  ℕ, zero, suc, ◌-◌, ◌<◌, Bool, true, false, List, [], ◌∷◌, ◌++◌, ◌≡◌, ap, ◌∙◌, subst, length,
  replicate, All, All-append, IsByte, ◌==◌, if◌then◌else◌, ok, arith, bit_or, length-append, some,
  Bool-cases, inl, inr,
}
use polygon.Conv.Words.{put_be-IsByte}
use polygon.Conv.Varint.{IsVarint, varint, varint-IsByte}
use polygon.Pkt.Frame.{Frame}
use polygon.Pkt.Frame.Encode.{flags_of, encode_frame}
use polygon.Pkt.Frame.Grammar.{IsObject}
use polygon.Pkt.Frame.Dispatch.{frame, decode_frame, decode_frame-parses}
use polygon.Pkt.Frame.Image.{wire, sent, IsFrame, Follows}
use polygon.Pkt.Frame.Codec.{encode_frame-sends, frame-wire}
use polygon.Pkt.Frame.Dispatch.{report_frame}
use polygon.Pkt.Frame.Parts.{blocks_wire-IsByte}

two : (xs ys : List ℕ) → All IsByte xs → All IsByte ys → All IsByte (xs ++ ys)
two = All-append IsByte

zeros-IsByte : (n : ℕ) → All IsByte (replicate n 0)
zeros-IsByte zero = tt
zeros-IsByte (suc n) = (omega arith, zeros-IsByte n)

type_byte : (fin at_start : Bool) → bit_or (flags_of fin at_start) 0x10 < 256
unfolding flags_of
type_byte true true = omega arith
type_byte true false = omega arith
type_byte false true = omega arith
type_byte false false = omega arith

offset-IsByte : (o : ℕ) → IsVarint o → All IsByte (if o == 0 then [] else varint o)
offset-IsByte o h = elim (Bool-cases (o == 0)) [
  | inl z ↦ rw z tt
  | inr nz ↦ rw nz (varint-IsByte o h)
]

-- The image is made of bytes.
wire-IsByte : (fr : Frame) → IsFrame fr → All IsByte (wire fr)
unfolding wire
wire-IsByte (Frame.stream s) h = (
  type_byte s.fin (s.offset == 0),
  two _ _ (varint-IsByte _ h.id_fits) (
      two _ _ (offset-IsByte s.offset h.offset_fits)
        (two _ _ (varint-IsByte _ h.datalen_fits) h.content_bytes)),
)
wire-IsByte (Frame.ack a) h = (
  omega arith,
  two _ _ (varint-IsByte _ h.largest_fits) (
      two _ _ (varint-IsByte _ h.delay_fits) (
        two _ _ (varint-IsByte _ (omega (arith, h.few)))
          (two _ _ (varint-IsByte _ h.first_fits) (blocks_wire-IsByte a.blks h.blks_fit)))),
)
wire-IsByte (Frame.padding n) h = zeros-IsByte n
wire-IsByte (Frame.rst_stream i c o) (hi, hc, ho) =
    (omega arith, two _ _ (varint-IsByte i hi) (two _ _ (put_be-IsByte 2 c) (varint-IsByte o ho)))
wire-IsByte (Frame.connection_close c r) (hc, hr, br) =
    (omega arith, two _ _ (put_be-IsByte 2 c) (two _ _ (varint-IsByte _ hr) br))
wire-IsByte (Frame.application_close c r) (hc, hr, br) =
    (omega arith, two _ _ (put_be-IsByte 2 c) (two _ _ (varint-IsByte _ hr) br))
wire-IsByte (Frame.max_data v) h = (omega arith, varint-IsByte v h)
wire-IsByte (Frame.max_stream_data i v) (hi, hv) =
    (omega arith, two _ _ (varint-IsByte i hi) (varint-IsByte v hv))
wire-IsByte (Frame.max_stream_id v) h = (omega arith, varint-IsByte v h)
wire-IsByte (Frame.ping d) (h, bd) = (omega arith, (h, bd))
wire-IsByte (Frame.blocked v) h = (omega arith, varint-IsByte v h)
wire-IsByte (Frame.stream_blocked i v) (hi, hv) =
    (omega arith, two _ _ (varint-IsByte i hi) (varint-IsByte v hv))
wire-IsByte (Frame.stream_id_blocked v) h = (omega arith, varint-IsByte v h)
wire-IsByte (Frame.new_connection_id s c t) (hs, hc, ht, bt) =
    (omega arith, two _ _ (varint-IsByte s (omega arith)) (two _ _ (put_be-IsByte 8 c) bt))
wire-IsByte (Frame.stop_sending i c) (hi, hc) =
    (omega arith, two _ _ (varint-IsByte i hi) (put_be-IsByte 2 c))
wire-IsByte (Frame.pong d) (h, bd) = (omega arith, (h, bd))

decode_frame_at :
    (payload : List ℕ) {fr : Frame} {rest : List ℕ}
    → All IsByte payload
    → IsObject payload
    → frame payload ≡ some (fr, rest)
    → decode_frame payload ≡ ok (some fr, length payload - length rest)
decode_frame_at [] b h e = unfold frame in absurd (ground arith)
decode_frame_at (t ∷ p) b h e = decode_frame-parses t p b h ∙ ap (report_frame (t ∷ p)) e

decode_frame-wire :
    (fr : Frame) (rest : List ℕ)
    → IsFrame fr
    → All IsByte rest
    → Follows fr rest
    → IsObject (wire fr ++ rest)
    → decode_frame (wire fr ++ rest) ≡ ok (some (sent fr), length (wire fr))
decode_frame-wire fr rest h b f small = ground (
  arith,
  decode_frame_at (wire fr ++ rest) (two _ _ (wire-IsByte fr h) b) small (frame-wire fr rest h b f),
  length-append (wire fr) rest,
)

encode_frame_parts :
    (outlen n : ℕ) (fr fr' : Frame) (bytes : List ℕ)
    → IsFrame fr
    → encode_frame outlen fr ≡ ok (n, bytes, fr')
    → (n ≡ length (wire fr)) × (bytes ≡ wire fr) × (fr' ≡ sent fr)
encode_frame_parts outlen n fr fr' bytes h e = ground (arith, encode_frame-sends outlen fr h)

-- A frame whose values fit, once written by `ngtcp2_pkt_encode_frame`, is read back by
-- `ngtcp2_pkt_decode_frame` from the front of the input, with the length that was written, whatever
-- bytes follow it (a byte other than 0, if any, behind PADDING).
pub decode_frame-encode_frame :
    (outlen n : ℕ) (fr fr' : Frame) (bytes rest : List ℕ)
    → IsFrame fr
    → encode_frame outlen fr ≡ ok (n, bytes, fr')
    → All IsByte rest
    → Follows fr rest
    → IsObject (bytes ++ rest)
    → decode_frame (bytes ++ rest) ≡ ok (some fr', n)
decode_frame-encode_frame outlen n fr fr' bytes rest h e b f small =
    let (en, eb, ef) = encode_frame_parts outlen n fr fr' bytes h e in
    rw (en, eb, ef) (decode_frame-wire fr rest h b f (subst (λ l. IsObject (l ++ rest)) eb small))
