-- ===== src/Pkt/Frame/Wire.antt =====
-- The wire image of a frame, as a plain list, and the encoders against it.
use polygon.Base.{
  ℕ, ◌<◌, List, [], ◌∷◌, ◌++◌, ◌≡◌, length, replicate, All, IsByte, ltb, ◌==◌, if◌then◌else◌,
  Result, ok, err, nobuf, arith, bit_or, length-append, length-replicate, take_ge,
}
use polygon.Conv.{put_uint16be, put_uint64be}
use polygon.Conv.Words.{length-put_be}
use polygon.Conv.Reader.{cpymem-eq}
use polygon.Conv.Varint.{IsVarint, varint, put_varint-eq, put_varint_len-eq, length-varint}
use polygon.Pkt.Frame.{Stream}
use polygon.Pkt.Frame.Encode.{
  stream_flags, encode_varint_frame, encode_two_varints_frame, encode_stop_sending_frame,
  encode_rst_stream_frame, encode_close_frame, encode_ping_pong_frame,
  encode_new_connection_id_frame, encode_padding_frame, encode_stream_frame,
}

-- What an encoder returns whose output is `bytes`.
abbrev pub output : ℕ → List ℕ → Result (ℕ × List ℕ)
output outlen bytes = if ltb outlen (length bytes) then err nobuf else ok (length bytes, bytes)

module _ (outlen : ℕ) where
  pub encode_varint_frame-output :
      (t v : ℕ) → IsVarint v → encode_varint_frame t outlen v ≡ output outlen (t ∷ varint v)
  unfolding encode_varint_frame
  encode_varint_frame-output t v h =
      ground (arith, put_varint-eq v h, put_varint_len-eq v h, length-varint v h)

  pub encode_two_varints_frame-output :
      (t v w : ℕ)
      → IsVarint v
      → IsVarint w
      → encode_two_varints_frame t outlen v w ≡ output outlen (t ∷ (varint v ++ varint w))
  unfolding encode_two_varints_frame
  encode_two_varints_frame-output t v w hv hw = ground (
    arith,
    put_varint-eq v hv,
    put_varint_len-eq v hv,
    length-varint v hv,
    put_varint-eq w hw,
    put_varint_len-eq w hw,
    length-varint w hw,
    length-append (varint v) (varint w),
  )

  pub encode_close_frame-output :
      (t code : ℕ) (reason : List ℕ)
      → IsVarint (length reason)
      → encode_close_frame t outlen code reason
        ≡ output outlen (t ∷ (put_uint16be code ++ (varint (length reason) ++ reason)))
  unfolding encode_close_frame
  encode_close_frame-output t code reason h =
      let n : ℕ = length reason in
      ground (
        arith,
        put_varint-eq n h,
        put_varint_len-eq n h,
        length-varint n h,
        length-append (varint n) reason,
        length-append (put_uint16be code) (varint n ++ reason),
        length-put_be 2 code,
      )

  pub encode_rst_stream_frame-output :
      (id code final : ℕ)
      → IsVarint id
      → IsVarint final
      → encode_rst_stream_frame outlen id code final
        ≡ output outlen (0x01 ∷ (varint id ++ (put_uint16be code ++ varint final)))
  unfolding encode_rst_stream_frame
  encode_rst_stream_frame-output v code w hv hw = ground (
    arith,
    put_varint-eq v hv,
    put_varint_len-eq v hv,
    length-varint v hv,
    put_varint-eq w hw,
    put_varint_len-eq w hw,
    length-varint w hw,
    length-append (varint v) (put_uint16be code ++ varint w),
    length-append (put_uint16be code) (varint w),
    length-put_be 2 code,
  )

  pub encode_ping_pong_frame-output :
      (t : ℕ) (content : List ℕ)
      → length content < 256
      → encode_ping_pong_frame t outlen content ≡ output outlen (t ∷ length content ∷ content)
  unfolding encode_ping_pong_frame
  encode_ping_pong_frame-output t content h = ground arith

  pub encode_new_connection_id_frame-output :
      (seq conn_id : ℕ) (token : List ℕ)
      → IsVarint seq
      → length token ≡ 16
      → encode_new_connection_id_frame outlen seq conn_id token
        ≡ output outlen (0x0b ∷ (varint seq ++ (put_uint64be conn_id ++ token)))
  unfolding encode_new_connection_id_frame
  encode_new_connection_id_frame-output v c token h e = ground (
    arith,
    put_varint-eq v h,
    put_varint_len-eq v h,
    length-varint v h,
    cpymem-eq 16 token (omega arith),
    take_ge 16 token (omega arith),
    length-append (varint v) (put_uint64be c ++ token),
    length-append (put_uint64be c) token,
    length-put_be 8 c,
  )

  pub encode_stop_sending_frame-output :
      (id code : ℕ)
      → IsVarint id
      → encode_stop_sending_frame outlen id code
        ≡ output outlen (0x0c ∷ (varint id ++ put_uint16be code))
  unfolding encode_stop_sending_frame
  encode_stop_sending_frame-output v code h = ground (
    arith,
    put_varint-eq v h,
    put_varint_len-eq v h,
    length-varint v h,
    length-append (varint v) (put_uint16be code),
    length-put_be 2 code,
  )

  pub encode_padding_frame-output :
      (n : ℕ) → encode_padding_frame outlen n ≡ output outlen (replicate n 0)
  unfolding encode_padding_frame
  encode_padding_frame-output n = ground (arith, length-replicate {A = ℕ} n 0)

-- The bytes of a STREAM frame; the offset is left out where it is 0.
abbrev pub stream_wire : Stream → List ℕ
stream_wire fr =
    bit_or (stream_flags fr.fin fr.offset) 0x10
    ∷ (varint fr.stream_id
        ++ ((if fr.offset == 0 then [] else varint fr.offset)
            ++ (varint (length fr.content) ++ fr.content)))

pub record IsStream (fr : Stream) : Type 0 where
  pub id_fits : IsVarint fr.stream_id
  pub offset_fits : IsVarint fr.offset
  pub datalen_fits : IsVarint (length fr.content)
  pub content_bytes : All IsByte fr.content

pub encode_stream_frame-output :
    (outlen : ℕ) (fr : Stream)
    → IsStream fr
    → encode_stream_frame outlen fr ≡ (
        if ltb outlen (length (stream_wire fr))
        then err nobuf
        else ok (
          length (stream_wire fr),
          stream_wire fr,
          record fr { flags = stream_flags fr.fin fr.offset },
        ))
unfolding encode_stream_frame
encode_stream_frame-output outlen fr h =
    let i : ℕ = fr.stream_id in
    let o : ℕ = fr.offset in
    let n : ℕ = length fr.content in
    ground (
      arith,
      put_varint-eq i h.id_fits,
      put_varint_len-eq i h.id_fits,
      length-varint i h.id_fits,
      put_varint-eq o h.offset_fits,
      put_varint_len-eq o h.offset_fits,
      length-varint o h.offset_fits,
      put_varint-eq n h.datalen_fits,
      put_varint_len-eq n h.datalen_fits,
      length-varint n h.datalen_fits,
      length-append (varint i) (varint o ++ (varint n ++ fr.content)),
      length-append (varint i) (varint n ++ fr.content),
      length-append (varint o) (varint n ++ fr.content),
      length-append (varint n) fr.content,
    )
