-- ===== src/Pkt/Frame/Dispatch.antt =====
-- `ngtcp2_pkt_decode_frame`: the decoder for a type byte. An input of no bytes is a frame of no bytes:
-- the function returns 0 and leaves `dest` as it is.
use polygon.Base.{
  ℕ, ◌-◌, ◌/◌, ◌%◌, List, [], ◌∷◌, ◌≡◌, refl, ◌<◌, length, Bool, true, false, ◌==◌, if◌then◌else◌,
  Result, ok, err, ◌>>=◌, Option, none, some, frame_format, bit_and, All, IsByte, arith,
}
use polygon.Base.Bits.{all_below, table}
use polygon.Conv.{deref}
use polygon.Conv.Reader.{Parser}
use polygon.Pkt.Frame.{Frame}
use polygon.Pkt.Frame.Decode.{
  decode_max_data_frame, decode_max_stream_id_frame, decode_blocked_frame,
  decode_stream_id_blocked_frame, decode_max_stream_data_frame, decode_stream_blocked_frame,
  decode_rst_stream_frame, decode_connection_close_frame, decode_application_close_frame,
  decode_ping_frame, decode_pong_frame, decode_new_connection_id_frame, decode_stop_sending_frame,
  decode_padding_frame,
}
use polygon.Pkt.Frame.DecodeAck.{decode_ack_frame}
use polygon.Pkt.Frame.DecodeStream.{decode_stream_frame}
use polygon.Pkt.Frame.Grammar.{
  report, IsObject, varint_frame, two_varints_frame, rst_stream_frame, close_frame, ping_pong_frame,
  new_connection_id_frame, stop_sending_frame, padding_frame, stream_frame, ack_frame,
}
use polygon.Pkt.Frame.Fixed.{
  decode_varint_frame-parses, decode_two_varints_frame-parses, decode_rst_stream_frame-parses,
  decode_close_frame-parses, decode_ping_pong_frame-parses, decode_new_connection_id_frame-parses,
  decode_stop_sending_frame-parses, decode_padding_frame-parses,
}
use polygon.Pkt.Frame.Variable.{decode_stream_frame-parses}
use polygon.Pkt.Frame.AckParse.{decode_ack_frame-parses}

unfoldable pub has_mask : ℕ → ℕ → Bool
has_mask b mask = bit_and b mask == mask

-- The `switch` over the types of fixed value.
unfoldable pub decode_by_type : ℕ → List ℕ → Result (Frame × ℕ)
decode_by_type type payload =
    if type == 0x00
    then decode_padding_frame payload
    else if type == 0x01
    then decode_rst_stream_frame payload
    else if type == 0x02
    then decode_connection_close_frame payload
    else if type == 0x03
    then decode_application_close_frame payload
    else if type == 0x04
    then decode_max_data_frame payload
    else if type == 0x05
    then decode_max_stream_data_frame payload
    else if type == 0x06
    then decode_max_stream_id_frame payload
    else if type == 0x07
    then decode_ping_frame payload
    else if type == 0x08
    then decode_blocked_frame payload
    else if type == 0x09
    then decode_stream_blocked_frame payload
    else if type == 0x0a
    then decode_stream_id_blocked_frame payload
    else if type == 0x0b
    then decode_new_connection_id_frame payload
    else if type == 0x0c
    then decode_stop_sending_frame payload
    else if type == 0x0d
    then decode_pong_frame payload
    else err frame_format

unfoldable pub decode_frame : List ℕ → Result (Option Frame × ℕ)
unfolding has_mask decode_by_type
decode_frame payload = if length payload == 0 then ok (none, 0) else do
  type ← deref payload
  (fr, n) ←
      (if has_mask type 0x10
        then decode_stream_frame payload
        else if has_mask type 0x0e
        then decode_ack_frame payload
        else decode_by_type type payload)
  ok (some fr, n)

-- The wire format behind a type byte below 0x0e.
unfoldable pub fixed_frame : ℕ → Parser Frame
fixed_frame type p =
    if type == 0x00
    then padding_frame p
    else if type == 0x01
    then rst_stream_frame p
    else if type == 0x02
    then close_frame Frame.connection_close p
    else if type == 0x03
    then close_frame Frame.application_close p
    else if type == 0x04
    then varint_frame Frame.max_data p
    else if type == 0x05
    then two_varints_frame Frame.max_stream_data p
    else if type == 0x06
    then varint_frame Frame.max_stream_id p
    else if type == 0x07
    then ping_pong_frame Frame.ping p
    else if type == 0x08
    then varint_frame Frame.blocked p
    else if type == 0x09
    then two_varints_frame Frame.stream_blocked p
    else if type == 0x0a
    then varint_frame Frame.stream_id_blocked p
    else if type == 0x0b
    then new_connection_id_frame p
    else if type == 0x0c
    then stop_sending_frame p
    else if type == 0x0d
    then ping_pong_frame Frame.pong p
    else none

-- Of a frame: bit 4 of the type byte means STREAM, and otherwise bits 1 to 3 mean ACK.
unfoldable pub frame : Parser Frame
unfolding fixed_frame
frame [] = none
frame (t ∷ p) =
    if t / 16 % 2 == 1
    then stream_frame t p
    else if t / 2 % 8 == 7
    then ack_frame p
    else fixed_frame t p

-- The two masks as arithmetic on the byte.
mask_bit : Bool → ℕ
mask_bit b = if b then 1 else 0

stream_mask : (t : ℕ) → t < 256 → mask_bit (has_mask t 0x10) ≡ mask_bit (t / 16 % 2 == 1)
unfolding all_below mask_bit has_mask
stream_mask = table 256 _ _ refl

ack_mask : (t : ℕ) → t < 256 → mask_bit (has_mask t 0x0e) ≡ mask_bit (t / 2 % 8 == 7)
unfolding all_below mask_bit has_mask
ack_mask = table 256 _ _ refl

mask_bit-injective : (a b : Bool) → mask_bit a ≡ mask_bit b → a ≡ b
unfolding mask_bit
mask_bit-injective a b e = ground arith

decode_by_type-parses :
    (t : ℕ) (p : List ℕ)
    → All IsByte p
    → IsObject (t ∷ p)
    → decode_by_type t (t ∷ p) ≡ report (t ∷ p) (fixed_frame t p)
unfolding decode_by_type fixed_frame
decode_by_type-parses t p bytes small = ground (
  arith,
  decode_padding_frame-parses t p,
  decode_rst_stream_frame-parses t p bytes small,
  decode_close_frame-parses t p bytes small Frame.connection_close,
  decode_close_frame-parses t p bytes small Frame.application_close,
  decode_varint_frame-parses t p bytes small Frame.max_data,
  decode_two_varints_frame-parses t p bytes small Frame.max_stream_data,
  decode_varint_frame-parses t p bytes small Frame.max_stream_id,
  decode_ping_pong_frame-parses Frame.ping t p bytes small,
  decode_varint_frame-parses t p bytes small Frame.blocked,
  decode_two_varints_frame-parses t p bytes small Frame.stream_blocked,
  decode_varint_frame-parses t p bytes small Frame.stream_id_blocked,
  decode_new_connection_id_frame-parses t p bytes small,
  decode_stop_sending_frame-parses t p bytes small,
  decode_ping_pong_frame-parses Frame.pong t p bytes small,
)

-- What `decode_frame` returns where the input parses so.
abbrev pub report_frame : List ℕ → Option (Frame × List ℕ) → Result (Option Frame × ℕ)
report_frame payload none = err frame_format
report_frame payload (some (fr, rest)) = ok (some fr, length payload - length rest)

report-some :
    (payload : List ℕ) (o : Option (Frame × List ℕ))
    → (report payload o >>= λ x. ok (some x.0, x.1)) ≡ report_frame payload o
report-some payload none = refl
report-some payload (some (fr, rest)) = refl

report_chosen :
    (payload : List ℕ) (b c : Bool) (x y z : Option (Frame × List ℕ))
    → ((if b then report payload x else if c then report payload y else report payload z) >>= λ r.
        ok (some r.0, r.1))
      ≡ report_frame payload (if b then x else if c then y else z)
report_chosen payload true c x y z = report-some payload x
report_chosen payload false true x y z = report-some payload y
report_chosen payload false false x y z = report-some payload z

-- On an input of at least one byte, `ngtcp2_pkt_decode_frame` returns the frame at its front and the
-- number of bytes that it takes, and FRAME_FORMAT if there is none. In both cases nothing is read past
-- the end of the input, and no assertion fails.
pub decode_frame-parses :
    (t : ℕ) (p : List ℕ)
    → All IsByte (t ∷ p)
    → IsObject (t ∷ p)
    → decode_frame (t ∷ p) ≡ report_frame (t ∷ p) (frame (t ∷ p))
unfolding decode_frame deref frame
decode_frame-parses t p (ht, bytes) small =
    rw
      (
        mask_bit-injective _ _ (stream_mask t ht),
        mask_bit-injective _ _ (ack_mask t ht),
        decode_stream_frame-parses t p bytes small,
        decode_ack_frame-parses t p bytes small,
        decode_by_type-parses t p bytes small,
      )
      (ground (
        arith,
        report_chosen (t ∷ p) (t / 16 % 2 == 1) (t / 2 % 8 == 7) (stream_frame t p) (ack_frame p)
            (fixed_frame t p),
      ))
