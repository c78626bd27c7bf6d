-- ===== src/Pkt/Frame/Codec.antt =====
-- `ngtcp2_pkt_encode_frame` writes the wire image of a frame, and `ngtcp2_pkt_decode_frame` reads it
-- back.
use polygon.Base.{
  ℕ, zero, suc, List, ◌++◌, ◌≡◌, length, All, IsByte, ltb, if◌then◌else◌, Result, ok, err, nobuf,
  arith, some,
}
use polygon.Pkt.Frame.{Frame}
use polygon.Pkt.Frame.Encode.{encode_frame}
use polygon.Pkt.Frame.Dispatch.{frame, fixed_frame}
use polygon.Pkt.Frame.Image.{wire, sent, IsFrame, Follows}
use polygon.Pkt.Frame.Wire.{
  encode_varint_frame-output, encode_two_varints_frame-output, encode_stop_sending_frame-output,
  encode_rst_stream_frame-output, encode_close_frame-output, encode_ping_pong_frame-output,
  encode_new_connection_id_frame-output, encode_padding_frame-output, encode_stream_frame-output,
}
use polygon.Pkt.Frame.WireAck.{encode_ack_frame-output}
use polygon.Pkt.Frame.Parts.{
  varint_frame-wire, two_varints_frame-wire, rst_stream_frame-wire, close_frame-wire,
  ping_pong_frame-wire, new_connection_id_frame-wire, stop_sending_frame-wire, zeros-replicate,
}
use polygon.Pkt.Frame.PartsVariable.{ack_frame-wire, stream_frame-wire}

-- What `encode_frame` returns for a frame.
abbrev pub sends : ℕ → Frame → Result (ℕ × List ℕ × Frame)
sends outlen fr =
    if ltb outlen (length (wire fr)) then err nobuf else ok (length (wire fr), wire fr, sent fr)

-- For every frame whose values fit, `ngtcp2_pkt_encode_frame` returns NOBUF if the buffer is smaller
-- than the wire image of the frame, and otherwise writes exactly that image and returns its length.
pub encode_frame-sends :
    (outlen : ℕ) (fr : Frame) → IsFrame fr → encode_frame outlen fr ≡ sends outlen fr
unfolding encode_frame wire sent
encode_frame-sends outlen (Frame.stream s) h = ground (arith, encode_stream_frame-output outlen s h)
encode_frame-sends outlen (Frame.ack a) h = ground (arith, encode_ack_frame-output outlen a h)
encode_frame-sends outlen (Frame.padding n) h = ground (arith, encode_padding_frame-output outlen n)
encode_frame-sends outlen (Frame.rst_stream i c o) (hi, _, ho) =
    ground (arith, encode_rst_stream_frame-output outlen i c o hi ho)
encode_frame-sends outlen (Frame.connection_close c r) (_, h, _) =
    ground (arith, encode_close_frame-output outlen 2 c r h)
encode_frame-sends outlen (Frame.application_close c r) (_, h, _) =
    ground (arith, encode_close_frame-output outlen 3 c r h)
encode_frame-sends outlen (Frame.max_data v) h =
    ground (arith, encode_varint_frame-output outlen 4 v h)
encode_frame-sends outlen (Frame.max_stream_data i v) (hi, hv) =
    ground (arith, encode_two_varints_frame-output outlen 5 i v hi hv)
encode_frame-sends outlen (Frame.max_stream_id v) h =
    ground (arith, encode_varint_frame-output outlen 6 v h)
encode_frame-sends outlen (Frame.ping d) (h, _) =
    ground (arith, encode_ping_pong_frame-output outlen 7 d h)
encode_frame-sends outlen (Frame.blocked v) h =
    ground (arith, encode_varint_frame-output outlen 8 v h)
encode_frame-sends outlen (Frame.stream_blocked i v) (hi, hv) =
    ground (arith, encode_two_varints_frame-output outlen 9 i v hi hv)
encode_frame-sends outlen (Frame.stream_id_blocked v) h =
    ground (arith, encode_varint_frame-output outlen 10 v h)
encode_frame-sends outlen (Frame.new_connection_id s c t) (hs, _, ht, _) =
    ground (arith, encode_new_connection_id_frame-output outlen s c t (omega arith) ht)
encode_frame-sends outlen (Frame.stop_sending i c) (hi, _) =
    ground (arith, encode_stop_sending_frame-output outlen i c hi)
encode_frame-sends outlen (Frame.pong d) (h, _) =
    ground (arith, encode_ping_pong_frame-output outlen 13 d h)

-- The grammar parses the wire image of a frame back, and leaves what follows it.
pub frame-wire :
    (fr : Frame) (rest : List ℕ)
    → IsFrame fr
    → All IsByte rest
    → Follows fr rest
    → frame (wire fr ++ rest) ≡ some (sent fr, rest)
unfolding frame wire sent fixed_frame
frame-wire (Frame.stream s) rest h b f = stream_frame-wire rest b s h
frame-wire (Frame.ack a) rest h b f = ack_frame-wire rest b a h
frame-wire (Frame.padding zero) rest h b f = absurd (omega arith)
frame-wire (Frame.padding (suc n)) rest h b f = ground (arith, zeros-replicate n (suc n) rest f)
frame-wire (Frame.rst_stream i c o) rest (hi, hc, ho) b f =
    ground (arith, rst_stream_frame-wire rest b i c o hi hc ho)
frame-wire (Frame.connection_close c r) rest (hc, hr, br) b f =
    ground (arith, close_frame-wire rest b Frame.connection_close c r hc hr br)
frame-wire (Frame.application_close c r) rest (hc, hr, br) b f =
    ground (arith, close_frame-wire rest b Frame.application_close c r hc hr br)
frame-wire (Frame.max_data v) rest h b f =
    ground (arith, varint_frame-wire rest b Frame.max_data v h)
frame-wire (Frame.max_stream_data i v) rest (hi, hv) b f =
    ground (arith, two_varints_frame-wire rest b Frame.max_stream_data i v hi hv)
frame-wire (Frame.max_stream_id v) rest h b f =
    ground (arith, varint_frame-wire rest b Frame.max_stream_id v h)
frame-wire (Frame.ping d) rest h b f = ground (arith, ping_pong_frame-wire rest b Frame.ping d)
frame-wire (Frame.blocked v) rest h b f = ground (arith, varint_frame-wire rest b Frame.blocked v h)
frame-wire (Frame.stream_blocked i v) rest (hi, hv) b f =
    ground (arith, two_varints_frame-wire rest b Frame.stream_blocked i v hi hv)
frame-wire (Frame.stream_id_blocked v) rest h b f =
    ground (arith, varint_frame-wire rest b Frame.stream_id_blocked v h)
frame-wire (Frame.new_connection_id s c t) rest (hs, hc, ht, bt) b f =
    ground (arith, new_connection_id_frame-wire rest b s c t hs hc ht bt)
frame-wire (Frame.stop_sending i c) rest (hi, hc) b f =
    ground (arith, stop_sending_frame-wire rest b i c hi hc)
frame-wire (Frame.pong d) rest h b f = ground (arith, ping_pong_frame-wire rest b Frame.pong d)
