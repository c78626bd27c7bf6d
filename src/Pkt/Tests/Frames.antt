-- ===== src/Pkt/Tests/Frames.antt =====
-- Frames.
use polygon.Base.{
  ℕ, ◌+◌, true, List, [], ◌∷◌, ◌++◌, ok, err, ◌≡◌, refl, arith, some, ack_frame, leb, if◌then◌else◌,
}
use polygon.Pkt.Frame.{Frame, Stream, Ack}
use polygon.Pkt.Frame.Encode.{encode_frame, encode_stream_frame, flags_of}
use polygon.Conv.{put_varint, put_varint_len, put_be}
use polygon.Pkt.Frame.Image.{IsFrame}
use polygon.Pkt.Frame.Codec.{sends, encode_frame-sends}
use polygon.Pkt.Frame.RoundTrip.{decode_frame-encode_frame}
use polygon.Pkt.Frame.Dispatch.{frame, decode_frame, decode_frame-parses, report_frame}
use polygon.Pkt.Validate.{validate_ack, span, validate_ack-span}

-- Two bytes at offset 300 of stream 4, with the flags still to be set.
abbrev content_at_300 : Stream
content_at_300 = record {
  flags = 0;
  fin = true;
  stream_id = 4;
  offset = 300;
  content = 0xaa ∷ 0xbb ∷ [];
}

abbrev content_sent : Stream
content_sent = record content_at_300 { flags = 0x07 }

abbrev content_bytes : List ℕ
content_bytes = 0x17 ∷ 0x04 ∷ 0x41 ∷ 0x2c ∷ 0x02 ∷ 0xaa ∷ 0xbb ∷ []

content_fits : IsFrame (Frame.stream content_at_300)
content_fits = record {
  id_fits = omega arith;
  offset_fits = omega arith;
  datalen_fits = omega arith;
  content_bytes = (omega arith, (omega arith, tt));
}

encode_content :
    encode_frame 64 (Frame.stream content_at_300) ≡ ok (7, content_bytes, Frame.stream content_sent)
unfolding encode_frame encode_stream_frame put_varint_len put_varint put_be flags_of
encode_content = refl

decode_frame-encode_frame_example :
    decode_frame (content_bytes ++ (0x00 ∷ [])) ≡ ok (some (Frame.stream content_sent), 7)
decode_frame-encode_frame_example =
    decode_frame-encode_frame 64 7 (Frame.stream content_at_300) (Frame.stream content_sent)
      content_bytes (0x00 ∷ []) content_fits encode_content (omega arith, tt) tt (omega arith)

encode_frame-sends_example :
    encode_frame 6 (Frame.stream content_at_300) ≡ sends 6 (Frame.stream content_at_300)
encode_frame-sends_example = encode_frame-sends 6 (Frame.stream content_at_300) content_fits

-- MAX_DATA, cut off in its variable-length integer.
decode_frame-parses_example :
    decode_frame (0x04 ∷ 0x40 ∷ []) ≡ report_frame (0x04 ∷ 0x40 ∷ []) (frame (0x04 ∷ 0x40 ∷ []))
decode_frame-parses_example =
    decode_frame-parses 0x04 (0x40 ∷ []) (omega arith, (omega arith, tt)) (omega arith)

-- Packets 250 and 1.
abbrev two_acks : Ack
two_acks = record {
  largest_ack = 250;
  ack_delay = 0;
  first_ack_blklen = 0;
  blks = record { gap = 247; blklen = 0 } ∷ [];
}

validate_two_acks : validate_ack two_acks ≡ ok tt
unfolding validate_ack
validate_two_acks = refl

validate_ack-span_example : validate_ack two_acks ≡ (
    if leb (two_acks.first_ack_blklen + span two_acks.blks) two_acks.largest_ack
    then ok tt
    else err ack_frame)
validate_ack-span_example =
    validate_ack-span two_acks (omega arith) (omega arith)
      (record { gap_fits = omega arith; blklen_fits = omega arith }, tt)
