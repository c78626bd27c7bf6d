-- ===== src/Pkt/Frame/Grammar.antt =====
-- The wire format of the frames, as one-pass parsers of what follows the type byte.
use polygon.Base.{
  ℕ, zero, suc, ◌-◌, ◌%◌, ◌^◌, ◌<◌, List, [], ◌∷◌, length, Option, none, some, Bool, take, Result,
  ok, err, frame_format, if◌then◌else◌, ◌==◌,
}
use polygon.Conv.Reader.{Parser, ◌>>=◌, return, parse_varint, parse_be, parse_bytes}
use polygon.Pkt.Frame.{Frame, AckBlk}
use polygon.Pkt.Frame.Decode.{has_bit}
use polygon.Pkt.Frame.DecodeAck.{max_ack_blks}
use polygon.Pkt.Frame.DecodeStream.{stream_off_bit, stream_len_bit, make_stream}

-- What a decoder returns where its input parses so: the value and the number of bytes taken.
abbrev pub report {ℓ} : {A : Type ℓ} → List ℕ → Option (A × List ℕ) → Result (A × ℕ)
report payload none = err frame_format
report payload (some (a, rest)) = ok (a, length payload - length rest)

-- No object is larger than PTRDIFF_MAX bytes.
abbrev pub IsObject : List ℕ → Type 0
IsObject payload = length payload < 2 ^ 63

-- The fields of the frames of fixed shape, behind the type byte.
abbrev pub varint_frame : (ℕ → Frame) → Parser Frame
varint_frame make = do v ← parse_varint; return (make v)

abbrev pub two_varints_frame : (ℕ → ℕ → Frame) → Parser Frame
two_varints_frame make = do a ← parse_varint; b ← parse_varint; return (make a b)

abbrev pub rst_stream_frame : Parser Frame
rst_stream_frame = do
  id ← parse_varint
  code ← parse_be 2 0
  final ← parse_varint
  return (Frame.rst_stream id code final)

abbrev pub close_frame : (ℕ → List ℕ → Frame) → Parser Frame
close_frame make = do
  code ← parse_be 2 0
  n ← parse_varint
  reason ← parse_bytes n
  return (make code reason)

abbrev pub ping_pong_frame : (List ℕ → Frame) → Parser Frame
ping_pong_frame make = do n ← parse_be 1 0; content ← parse_bytes n; return (make content)

abbrev pub new_connection_id_frame : Parser Frame
new_connection_id_frame = do
  seq ← parse_varint
  conn_id ← parse_be 8 0
  token ← parse_bytes 16
  return (Frame.new_connection_id (seq % 2 ^ 16) conn_id token)

abbrev pub stop_sending_frame : Parser Frame
stop_sending_frame = do id ← parse_varint; code ← parse_be 2 0; return (Frame.stop_sending id code)

-- As many zero bytes as there are.
unfoldable pub zeros : List ℕ → ℕ × List ℕ
zeros [] = (0, [])
zeros (b ∷ p) = let (n, q) = zeros p in if b == 0 then (suc n, q) else (0, b ∷ p)

abbrev pub padding_frame : Parser Frame
padding_frame p = let (n, q) = zeros p in some (Frame.padding (suc n), q)

-- All that is left.
abbrev pub remaining : Parser (List ℕ)
remaining p = some (p, [])

-- The content of a STREAM frame, with a length field or without.
abbrev pub content_of : Bool → (List ℕ → Frame) → Parser Frame
content_of b make = do
  content ← (if b then (do n ← parse_varint; parse_bytes n) else remaining)
  return (make content)

-- A STREAM frame of type byte `t`: the bits of `t` say which fields there are.
abbrev pub stream_frame : ℕ → Parser Frame
stream_frame t = do
  id ← parse_varint
  offset ← (if has_bit t stream_off_bit then parse_varint else return 0)
  content_of (has_bit t stream_len_bit) (make_stream t id offset)

-- `n` additional blocks of an ACK frame.
unfoldable pub ack_blocks : ℕ → Parser (List AckBlk)
ack_blocks zero = return []
ack_blocks (suc n) = do
  gap ← parse_varint
  blklen ← parse_varint
  blks ← ack_blocks n
  return (record { gap = gap; blklen = blklen } ∷ blks)

-- The fields from the first block on, from the block count on, from the delay on. Of the blocks the
-- first 255 are kept.
abbrev pub ack_from_first : ℕ → ℕ → ℕ → Parser Frame
ack_from_first largest_ack ack_delay n = do
  first_ack_blklen ← parse_varint
  blks ← ack_blocks n
  return (
      Frame.ack (record {
        largest_ack = largest_ack;
        ack_delay = ack_delay;
        first_ack_blklen = first_ack_blklen;
        blks = take max_ack_blks blks;
      }))

abbrev pub ack_from_count : ℕ → ℕ → Parser Frame
ack_from_count largest_ack ack_delay = do n ← parse_varint; ack_from_first largest_ack ack_delay n

abbrev pub ack_from_delay : ℕ → Parser Frame
ack_from_delay largest_ack = do ack_delay ← parse_varint; ack_from_count largest_ack ack_delay

abbrev pub ack_frame : Parser Frame
ack_frame = do largest_ack ← parse_varint; ack_from_delay largest_ack
