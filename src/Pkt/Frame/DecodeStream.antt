-- ===== src/Pkt/Frame/DecodeStream.antt =====
-- `ngtcp2_pkt_decode_stream_frame`.
use polygon.Base.{
  ℕ, ◌-◌, Bool, true, false, bit_and, List, length, Result, ok, ◌>>=◌, ◌>>◌, add64, if◌then◌else◌,
}
use polygon.Conv.{advance, deref, cpymem, get_varint_len, get_varint}
use polygon.Pkt.Frame.{Frame}
use polygon.Pkt.Frame.Decode.{check, finish, walk_field, take_varint, has_bit}

-- The same behind `++len; check;`.
unfoldable pub skip_field : List ℕ → List ℕ → ℕ → Result (List ℕ × ℕ)
unfolding walk_field
skip_field payload p len = do check payload (add64 len 1); walk_field payload p (add64 len 1)

-- The length field: as above, but `p` stays, and `len` grows by the length that it gives.
unfoldable pub count_content : List ℕ → List ℕ → ℕ → Result ℕ
count_content payload p len = do
  check payload (add64 len 1)
  n ← get_varint_len p
  let len' = add64 (add64 len 1) (n - 1)
  check payload len'
  (datalen, _) ← get_varint p
  check payload (add64 len' datalen)
  ok (add64 len' datalen)

-- NGTCP2_STREAM_FIN_BIT, _LEN_BIT and _OFF_BIT.
abbrev pub stream_fin_bit : ℕ
stream_fin_bit = 0x01

abbrev pub stream_len_bit : ℕ
stream_len_bit = 0x02

abbrev pub stream_off_bit : ℕ
stream_off_bit = 0x04

-- The fields of `dest`, with the rest of the input as the content where there is no length field.
abbrev pub make_stream : ℕ → ℕ → ℕ → List ℕ → Frame
make_stream type id offset content = Frame.stream (record {
  flags = bit_and type 0xef;
  fin = has_bit type stream_fin_bit;
  stream_id = id;
  offset = offset;
  content = content;
})

-- `dest->data` points at `datalen` bytes of the input, or at all that is left.
unfoldable pub read_content : List ℕ → List ℕ → ℕ → Bool → (List ℕ → Frame) → Result (Frame × ℕ)
unfolding take_varint
read_content payload p len true make = do
  (datalen, q) ← take_varint p
  content ← cpymem datalen q
  q' ← advance datalen q
  finish payload q' len (make content)
read_content payload p len false make = ok (make p, length payload)

unfoldable pub decode_stream_frame : List ℕ → Result (Frame × ℕ)
unfolding read_content
decode_stream_frame payload = do
  check payload 2
  type ← deref payload
  p ← advance 1 payload
  n ← get_varint_len p
  let len = add64 2 (n - 1)
  check payload len
  q ← advance n p
  (q', len') ← (if has_bit type stream_off_bit then skip_field payload q len else ok (q, len))
  len'' ← (if has_bit type stream_len_bit then count_content payload q' len' else ok len')
  (id, r) ← take_varint p
  (offset, r') ← (if has_bit type stream_off_bit then take_varint r else ok (0, r))
  read_content payload r' len'' (has_bit type stream_len_bit) (make_stream type id offset)
