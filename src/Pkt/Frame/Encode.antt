-- ===== src/Pkt/Frame/Encode.antt =====
-- The frame encoders of ngtcp2_pkt.c. Each gives the length that it returns with the bytes that it
-- writes at `out`; nothing is written before the test of `outlen`.
use polygon.Base.{
  ℕ, ◌+◌, ◌%◌, ◌^◌, Bool, List, [], ◌∷◌, ◌++◌, length, replicate, ltb, ◌==◌, Result, ok, ◌>>=◌,
  ◌>>◌, assert, fail_if, add64, nobuf, bit_or, if◌then◌else◌,
}
use polygon.Conv.{cpymem, put_varint, put_varint_len, put_uint16be, put_uint64be}
use polygon.Pkt.Frame.{Frame, Stream, Ack, AckBlk}
use polygon.Pkt.Frame.DecodeStream.{stream_fin_bit, stream_len_bit, stream_off_bit}

-- `if (outlen < len) return NGTCP2_ERR_NOBUF;`
abbrev pub check_room : ℕ → ℕ → Result (Unit {0})
check_room outlen len = fail_if (ltb outlen len) nobuf

-- `assert((size_t)(p - out) == len); return (ssize_t)len;`
abbrev pub written : ℕ → List ℕ → Result (ℕ × List ℕ)
written len bytes = do assert (length bytes == len); ok (len, bytes)

-- NGTCP2_STREAM_LEN_BIT with FIN and OFF as the frame needs them.
unfoldable pub flags_of : Bool → Bool → ℕ
flags_of fin at_start =
    let flags = if fin then bit_or stream_len_bit stream_fin_bit else stream_len_bit in
    if at_start then flags else bit_or flags stream_off_bit

abbrev pub stream_flags : Bool → ℕ → ℕ
stream_flags fin offset = flags_of fin (offset == 0)

-- The frame is changed too: `fr->flags = flags`.
unfoldable pub encode_stream_frame : ℕ → Stream → Result (ℕ × List ℕ × Stream)
encode_stream_frame outlen fr = do
  let flags = stream_flags fr.fin fr.offset
  offset_len ← (if fr.offset == 0 then ok 0 else put_varint_len fr.offset)
  id_len ← put_varint_len fr.stream_id
  datalen_len ← put_varint_len (length fr.content)
  let len = add64 (add64 (add64 (add64 1 offset_len) id_len) datalen_len) (length fr.content)
  check_room outlen len
  id ← put_varint fr.stream_id
  offset ← (if fr.offset == 0 then ok [] else put_varint fr.offset)
  datalen ← put_varint (length fr.content)
  (n, bytes) ← written len (bit_or flags 0x10 ∷ (id ++ (offset ++ (datalen ++ fr.content))))
  ok (n, bytes, record fr { flags = flags })

-- The two loops over the blocks: their length, and their bytes.
unfoldable pub blocks_len : ℕ → List AckBlk → Result ℕ
blocks_len len [] = ok len
blocks_len len (b ∷ blks) = do
  n ← put_varint_len b.gap
  m ← put_varint_len b.blklen
  blocks_len (add64 (add64 len n) m) blks

unfoldable pub put_blocks : List AckBlk → Result (List ℕ)
put_blocks [] = ok []
put_blocks (b ∷ blks) = do
  gap ← put_varint b.gap
  blklen ← put_varint b.blklen
  rest ← put_blocks blks
  ok (gap ++ (blklen ++ rest))

unfoldable pub encode_ack_frame : ℕ → Ack → Result (ℕ × List ℕ)
encode_ack_frame outlen fr = do
  a ← put_varint_len fr.largest_ack
  b ← put_varint_len fr.ack_delay
  c ← put_varint_len (length fr.blks)
  d ← put_varint_len fr.first_ack_blklen
  len ← blocks_len (add64 (add64 (add64 (add64 1 a) b) c) d) fr.blks
  check_room outlen len
  largest_ack ← put_varint fr.largest_ack
  ack_delay ← put_varint fr.ack_delay
  num_blks ← put_varint (length fr.blks)
  first_ack_blklen ← put_varint fr.first_ack_blklen
  blks ← put_blocks fr.blks
  written len (0x0e ∷ (largest_ack ++ (ack_delay ++ (num_blks ++ (first_ack_blklen ++ blks)))))

-- `memset(out, 0, fr->len)`
unfoldable pub encode_padding_frame : ℕ → ℕ → Result (ℕ × List ℕ)
encode_padding_frame outlen len = do check_room outlen len; ok (len, replicate len 0)

unfoldable pub encode_rst_stream_frame : ℕ → ℕ → ℕ → ℕ → Result (ℕ × List ℕ)
encode_rst_stream_frame outlen id code final = do
  n ← put_varint_len id
  m ← put_varint_len final
  let len = add64 (add64 (add64 1 n) 2) m
  check_room outlen len
  a ← put_varint id
  b ← put_varint final
  written len (0x01 ∷ (a ++ (put_uint16be code ++ b)))

-- CONNECTION_CLOSE and APPLICATION_CLOSE differ in the type byte only.
unfoldable pub encode_close_frame : ℕ → ℕ → ℕ → List ℕ → Result (ℕ × List ℕ)
encode_close_frame type outlen code reason = do
  n ← put_varint_len (length reason)
  let len = add64 (add64 (1 + 2) n) (length reason)
  check_room outlen len
  a ← put_varint (length reason)
  written len (type ∷ (put_uint16be code ++ (a ++ reason)))

abbrev pub encode_connection_close_frame : ℕ → ℕ → List ℕ → Result (ℕ × List ℕ)
encode_connection_close_frame = encode_close_frame 0x02

abbrev pub encode_application_close_frame : ℕ → ℕ → List ℕ → Result (ℕ × List ℕ)
encode_application_close_frame = encode_close_frame 0x03

-- MAX_DATA, MAX_STREAM_ID, BLOCKED and STREAM_ID_BLOCKED.
unfoldable pub encode_varint_frame : ℕ → ℕ → ℕ → Result (ℕ × List ℕ)
encode_varint_frame type outlen v = do
  n ← put_varint_len v
  let len = add64 1 n
  check_room outlen len
  a ← put_varint v
  written len (type ∷ a)

abbrev pub encode_max_data_frame : ℕ → ℕ → Result (ℕ × List ℕ)
encode_max_data_frame = encode_varint_frame 0x04

abbrev pub encode_max_stream_id_frame : ℕ → ℕ → Result (ℕ × List ℕ)
encode_max_stream_id_frame = encode_varint_frame 0x06

abbrev pub encode_blocked_frame : ℕ → ℕ → Result (ℕ × List ℕ)
encode_blocked_frame = encode_varint_frame 0x08

abbrev pub encode_stream_id_blocked_frame : ℕ → ℕ → Result (ℕ × List ℕ)
encode_stream_id_blocked_frame = encode_varint_frame 0x0a

-- MAX_STREAM_DATA and STREAM_BLOCKED.
unfoldable pub encode_two_varints_frame : ℕ → ℕ → ℕ → ℕ → Result (ℕ × List ℕ)
encode_two_varints_frame type outlen v w = do
  n ← put_varint_len v
  m ← put_varint_len w
  let len = add64 (add64 1 n) m
  check_room outlen len
  a ← put_varint v
  b ← put_varint w
  written len (type ∷ (a ++ b))

abbrev pub encode_max_stream_data_frame : ℕ → ℕ → ℕ → Result (ℕ × List ℕ)
encode_max_stream_data_frame = encode_two_varints_frame 0x05

abbrev pub encode_stream_blocked_frame : ℕ → ℕ → ℕ → Result (ℕ × List ℕ)
encode_stream_blocked_frame = encode_two_varints_frame 0x09

-- PING and PONG. `(uint8_t)fr->datalen`
unfoldable pub encode_ping_pong_frame : ℕ → ℕ → List ℕ → Result (ℕ × List ℕ)
encode_ping_pong_frame type outlen content = do
  let len = add64 (1 + 1) (length content)
  check_room outlen len
  written len (type ∷ (length content % 2 ^ 8) ∷ content)

abbrev pub encode_ping_frame : ℕ → List ℕ → Result (ℕ × List ℕ)
encode_ping_frame = encode_ping_pong_frame 0x07

abbrev pub encode_pong_frame : ℕ → List ℕ → Result (ℕ × List ℕ)
encode_pong_frame = encode_ping_pong_frame 0x0d

unfoldable pub encode_new_connection_id_frame : ℕ → ℕ → ℕ → List ℕ → Result (ℕ × List ℕ)
encode_new_connection_id_frame outlen seq conn_id token = do
  n ← put_varint_len seq
  let len = add64 (add64 (add64 1 n) 8) 16
  check_room outlen len
  a ← put_varint seq
  b ← cpymem 16 token
  written len (0x0b ∷ (a ++ (put_uint64be conn_id ++ b)))

unfoldable pub encode_stop_sending_frame : ℕ → ℕ → ℕ → Result (ℕ × List ℕ)
encode_stop_sending_frame outlen id code = do
  n ← put_varint_len id
  let len = add64 (add64 1 n) 2
  check_room outlen len
  a ← put_varint id
  written len (0x0c ∷ (a ++ put_uint16be code))

-- The other encoders leave the frame as it is.
abbrev keep : Frame → Result (ℕ × List ℕ) → Result (ℕ × List ℕ × Frame)
keep fr r = do (n, bytes) ← r; ok (n, bytes, fr)

unfoldable pub encode_frame : ℕ → Frame → Result (ℕ × List ℕ × Frame)
encode_frame outlen (Frame.stream s) = do
  (n, bytes, s') ← encode_stream_frame outlen s
  ok (n, bytes, Frame.stream s')
encode_frame outlen (Frame.ack a) = keep (Frame.ack a) (encode_ack_frame outlen a)
encode_frame outlen (Frame.padding n) = keep (Frame.padding n) (encode_padding_frame outlen n)
encode_frame outlen (Frame.rst_stream i c o) =
    keep (Frame.rst_stream i c o) (encode_rst_stream_frame outlen i c o)
encode_frame outlen (Frame.connection_close c r) =
    keep (Frame.connection_close c r) (encode_connection_close_frame outlen c r)
encode_frame outlen (Frame.application_close c r) =
    keep (Frame.application_close c r) (encode_application_close_frame outlen c r)
encode_frame outlen (Frame.max_data v) = keep (Frame.max_data v) (encode_max_data_frame outlen v)
encode_frame outlen (Frame.max_stream_data i v) =
    keep (Frame.max_stream_data i v) (encode_max_stream_data_frame outlen i v)
encode_frame outlen (Frame.max_stream_id v) =
    keep (Frame.max_stream_id v) (encode_max_stream_id_frame outlen v)
encode_frame outlen (Frame.ping d) = keep (Frame.ping d) (encode_ping_frame outlen d)
encode_frame outlen (Frame.blocked v) = keep (Frame.blocked v) (encode_blocked_frame outlen v)
encode_frame outlen (Frame.stream_blocked i v) =
    keep (Frame.stream_blocked i v) (encode_stream_blocked_frame outlen i v)
encode_frame outlen (Frame.stream_id_blocked v) =
    keep (Frame.stream_id_blocked v) (encode_stream_id_blocked_frame outlen v)
encode_frame outlen (Frame.new_connection_id s c t) =
    keep (Frame.new_connection_id s c t) (encode_new_connection_id_frame outlen s c t)
encode_frame outlen (Frame.stop_sending i c) =
    keep (Frame.stop_sending i c) (encode_stop_sending_frame outlen i c)
encode_frame outlen (Frame.pong d) = keep (Frame.pong d) (encode_pong_frame outlen d)
