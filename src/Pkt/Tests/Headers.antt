-- ===== src/Pkt/Tests/Headers.antt =====
-- Headers, Version Negotiation packets and stateless resets.
use polygon.Base.{
  ℕ, true, List, [], ◌∷◌, ◌++◌, ok, ◌≡◌, refl, arith, inl, inr, replicate, ◌>>=◌, min, take, ◌-◌,
}
use polygon.Conv.{advance, put_be}
use polygon.Pkt.Frame.Decode.{has_bit}
use polygon.Pkt.Header.{PktHd, is_long_type, decode_hd, encode_hd_long, encode_hd_short}
use polygon.Pkt.Header.Laws.{TakesSome, decode_hd-TakesSome}
use polygon.Pkt.Header.RoundTrip.{long_sent, decode_hd-encode_hd_long}
use polygon.Pkt.Header.Short.{short_sent, decode_hd-encode_hd_short}
use polygon.Pkt.Reset.{write_stateless_reset, decode_stateless_reset}
use polygon.Pkt.Reset.RoundTrip.{decode_stateless_reset-write_stateless_reset}

-- A Handshake packet.
abbrev handshake : PktHd
handshake = record { flags = 0; type = 0x7d; conn_id = 5; pkt_num = 2; version = 1 }

abbrev handshake_bytes : List ℕ
handshake_bytes = 0xfd ∷ 0 ∷ 0 ∷ 0 ∷ 0 ∷ 0 ∷ 0 ∷ 0 ∷ 5 ∷ 0 ∷ 0 ∷ 0 ∷ 1 ∷ 0 ∷ 0 ∷ 0 ∷ 2 ∷ []

encode_handshake : encode_hd_long 17 handshake ≡ ok (17, handshake_bytes)
unfolding encode_hd_long put_be
encode_handshake = refl

handshake_is_long : is_long_type 0x7d ≡ true
unfolding is_long_type
handshake_is_long = refl

decode_hd-encode_hd_long_example :
    decode_hd (handshake_bytes ++ (9 ∷ [])) ≡ ok (long_sent handshake, 17)
decode_hd-encode_hd_long_example =
    decode_hd-encode_hd_long 17 17 handshake handshake_bytes (9 ∷ []) handshake_is_long
      (omega arith) (omega arith) encode_handshake

-- A short header with two bytes of packet number, without a connection id.
abbrev omitting : PktHd
omitting = record { flags = 0x02; type = 0x1e; conn_id = 0; pkt_num = 0x010203; version = 0 }

encode_omitting : encode_hd_short 64 omitting ≡ ok (3, 0x5e ∷ 2 ∷ 3 ∷ [])
unfolding encode_hd_short put_be has_bit
encode_omitting = refl

decode_hd-encode_hd_short_example :
    decode_hd ((0x5e ∷ 2 ∷ 3 ∷ []) ++ []) ≡ ok (short_sent omitting, 3)
decode_hd-encode_hd_short_example =
    decode_hd-encode_hd_short 64 3 omitting (0x5e ∷ 2 ∷ 3 ∷ []) [] (inr (inl refl)) (omega arith)
      encode_omitting

decode_hd-TakesSome_example : TakesSome (0x5e ∷ 2 ∷ 3 ∷ []) (decode_hd (0x5e ∷ 2 ∷ 3 ∷ []))
decode_hd-TakesSome_example = decode_hd-TakesSome (0x5e ∷ 2 ∷ 3 ∷ [])

abbrev one_version : List ℕ
one_version = 0x85 ∷ 0 ∷ 0 ∷ 0 ∷ 0 ∷ 0 ∷ 0 ∷ 0 ∷ 5 ∷ 0 ∷ 0 ∷ 0 ∷ 0 ∷ 0 ∷ 0 ∷ 0 ∷ 7 ∷ []

encode_in_20 : encode_hd_short 20 omitting ≡ ok (3, 0x5e ∷ 2 ∷ 3 ∷ [])
unfolding encode_hd_short put_be has_bit
encode_in_20 = refl

-- A reset in 20 bytes: there is room for one random byte of the two.
decode_stateless_reset-write_stateless_reset_example :
    (do
      (n, bytes) ← write_stateless_reset 20 omitting (replicate 16 9) (1 ∷ 2 ∷ [])
      payload ← advance 3 bytes
      decode_stateless_reset payload)
    ≡ ok (record {
      stateless_reset_token = replicate 16 9;
      rand = take (min (20 - 3 - 16) 2) (1 ∷ 2 ∷ []);
    })
decode_stateless_reset-write_stateless_reset_example =
    decode_stateless_reset-write_stateless_reset 20 3 omitting (0x5e ∷ 2 ∷ 3 ∷ []) (replicate 16 9)
      (1 ∷ 2 ∷ []) refl (omega arith) encode_in_20 (omega arith)
