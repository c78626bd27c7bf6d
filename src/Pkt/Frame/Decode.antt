-- ===== src/Pkt/Frame/Decode.antt =====
-- The frame decoders of ngtcp2_pkt.c. Each first walks over the input to see that every field is
-- there (`len` counts the bytes that are needed), and then reads the fields from the start.
use polygon.Base.{
  ℕ, suc, ◌+◌, ◌-◌, ◌%◌, ◌^◌, Bool, not, bit_and, List, [], ◌∷◌, length, ltb, ◌==◌, Result, ok,
  ◌>>=◌, ◌>>◌, assert, fail_if, add64, frame_format, if◌then◌else◌,
}
use polygon.Conv.{advance, deref, cpymem, get_varint_len, get_varint, get_uint16, get_uint64}
use polygon.Pkt.Frame.{Frame}

-- `if (payloadlen < len) return NGTCP2_ERR_FRAME_FORMAT;`
abbrev pub check : List ℕ → ℕ → Result (Unit {0})
check payload len = fail_if (ltb (length payload) len) frame_format

-- `assert((size_t)(p - payload) == len); return (ssize_t)len;`
abbrev pub finish {ℓ} : {A : Type ℓ} → List ℕ → List ℕ → ℕ → A → Result (A × ℕ)
finish payload p len a = do assert (length payload - length p == len); ok (a, len)

-- The decoders of MAX_DATA, MAX_STREAM_ID, BLOCKED and STREAM_ID_BLOCKED are the same text up to the
-- field that they fill.
unfoldable pub decode_varint_frame : (ℕ → Frame) → List ℕ → Result (Frame × ℕ)
decode_varint_frame make payload = do
  check payload 2
  p ← advance 1 payload
  n ← get_varint_len p
  let len = add64 2 (n - 1)
  check payload len
  (v, n') ← get_varint p
  p' ← advance n' p
  finish payload p' len (make v)

abbrev pub decode_max_data_frame : List ℕ → Result (Frame × ℕ)
decode_max_data_frame = decode_varint_frame Frame.max_data

abbrev pub decode_max_stream_id_frame : List ℕ → Result (Frame × ℕ)
decode_max_stream_id_frame = decode_varint_frame Frame.max_stream_id

abbrev pub decode_blocked_frame : List ℕ → Result (Frame × ℕ)
decode_blocked_frame = decode_varint_frame Frame.blocked

abbrev pub decode_stream_id_blocked_frame : List ℕ → Result (Frame × ℕ)
decode_stream_id_blocked_frame = decode_varint_frame Frame.stream_id_blocked

-- Those of MAX_STREAM_DATA and STREAM_BLOCKED too.
unfoldable pub decode_two_varints_frame : (ℕ → ℕ → Frame) → List ℕ → Result (Frame × ℕ)
decode_two_varints_frame make payload = do
  check payload 3
  p ← advance 1 payload
  n ← get_varint_len p
  let len = add64 3 (n - 1)
  check payload len
  q ← advance n p
  m ← get_varint_len q
  let len' = add64 len (m - 1)
  check payload len'
  (a, n') ← get_varint p
  q' ← advance n' p
  (b, m') ← get_varint q'
  r ← advance m' q'
  finish payload r len' (make a b)

abbrev pub decode_max_stream_data_frame : List ℕ → Result (Frame × ℕ)
decode_max_stream_data_frame = decode_two_varints_frame Frame.max_stream_data

abbrev pub decode_stream_blocked_frame : List ℕ → Result (Frame × ℕ)
decode_stream_blocked_frame = decode_two_varints_frame Frame.stream_blocked

unfoldable pub decode_rst_stream_frame : List ℕ → Result (Frame × ℕ)
decode_rst_stream_frame payload = do
  check payload 5
  p ← advance 1 payload
  n ← get_varint_len p
  let len = add64 5 (n - 1)
  check payload len
  q ← advance (n + 2) p
  m ← get_varint_len q
  let len' = add64 len (m - 1)
  check payload len'
  (id, n') ← get_varint p
  q' ← advance n' p
  code ← get_uint16 q'
  q'' ← advance 2 q'
  (final, m') ← get_varint q''
  r ← advance m' q''
  finish payload r len' (Frame.rst_stream id code final)

-- The decoders of CONNECTION_CLOSE and APPLICATION_CLOSE are the same text. `reason` is a pointer to
-- `reasonlen` bytes.
unfoldable pub decode_close_frame : (ℕ → List ℕ → Frame) → List ℕ → Result (Frame × ℕ)
decode_close_frame make payload = do
  check payload 4
  p ← advance 3 payload
  n ← get_varint_len p
  let len = add64 4 (n - 1)
  check payload len
  (reasonlen, n') ← get_varint p
  let len' = add64 len reasonlen
  check payload len'
  q ← advance 1 payload
  code ← get_uint16 q
  q' ← advance 2 q
  q'' ← advance n' q'
  reason ← cpymem reasonlen q''
  r ← advance reasonlen q''
  finish payload r len' (make code reason)

abbrev pub decode_connection_close_frame : List ℕ → Result (Frame × ℕ)
decode_connection_close_frame = decode_close_frame Frame.connection_close

abbrev pub decode_application_close_frame : List ℕ → Result (Frame × ℕ)
decode_application_close_frame = decode_close_frame Frame.application_close

-- So are those of PING and PONG.
unfoldable pub decode_ping_pong_frame : (List ℕ → Frame) → List ℕ → Result (Frame × ℕ)
decode_ping_pong_frame make payload = do
  check payload 2
  p ← advance 1 payload
  datalen ← deref p
  let len = add64 2 datalen
  check payload len
  q ← advance 1 p
  content ← cpymem datalen q
  r ← advance datalen q
  finish payload r len (make content)

abbrev pub decode_ping_frame : List ℕ → Result (Frame × ℕ)
decode_ping_frame = decode_ping_pong_frame Frame.ping

abbrev pub decode_pong_frame : List ℕ → Result (Frame × ℕ)
decode_pong_frame = decode_ping_pong_frame Frame.pong

unfoldable pub decode_new_connection_id_frame : List ℕ → Result (Frame × ℕ)
decode_new_connection_id_frame payload = do
  check payload 26
  p ← advance 1 payload
  n ← get_varint_len p
  let len = add64 26 (n - 1)
  check payload len
  (seq, n') ← get_varint p
  q ← advance n' p
  conn_id ← get_uint64 q
  q' ← advance 8 q
  token ← cpymem 16 q'
  r ← advance 16 q'
  finish payload r len (Frame.new_connection_id (seq % 2 ^ 16) conn_id token)

unfoldable pub decode_stop_sending_frame : List ℕ → Result (Frame × ℕ)
decode_stop_sending_frame payload = do
  check payload 4
  p ← advance 1 payload
  n ← get_varint_len p
  let len = add64 4 (n - 1)
  check payload len
  (id, n') ← get_varint p
  q ← advance n' p
  code ← get_uint16 q
  r ← advance 2 q
  finish payload r len (Frame.stop_sending id code)

-- `for (; p != ep && *p == NGTCP2_FRAME_PADDING; ++p) ;`, with the number of steps.
unfoldable pub skip_padding : List ℕ → ℕ
skip_padding [] = 0
skip_padding (b ∷ p) = let n = skip_padding p in if b == 0 then suc n else 0

unfoldable pub decode_padding_frame : List ℕ → Result (Frame × ℕ)
unfolding skip_padding
decode_padding_frame payload = do
  assert (ltb 0 (length payload))
  p ← advance 1 payload
  let len = 1 + skip_padding p
  ok (Frame.padding len, len)

-- `n = ngtcp2_get_varint_len(p); len += n - 1; check; p += n;`
unfoldable pub walk_field : List ℕ → List ℕ → ℕ → Result (List ℕ × ℕ)
walk_field payload p len = do
  n ← get_varint_len p
  let len' = add64 len (n - 1)
  check payload len'
  q ← advance n p
  ok (q, len')

-- `x = ngtcp2_get_varint(&n, p); p += n;`
unfoldable pub take_varint : List ℕ → Result (ℕ × List ℕ)
take_varint p = do (v, n) ← get_varint p; q ← advance n p; ok (v, q)

-- `(b & mask) != 0`
unfoldable pub has_bit : ℕ → ℕ → Bool
has_bit b mask = not (bit_and b mask == 0)
