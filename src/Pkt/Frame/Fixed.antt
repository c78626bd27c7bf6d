-- ===== src/Pkt/Frame/Fixed.antt =====
-- The two-pass decoders of frames of fixed shape agree with the one-pass grammar: they return what it
-- parses, FRAME_FORMAT where it does not parse, and never read past the end of the input.
use polygon.Base.{
  ℕ, ◌+◌, List, [], ◌∷◌, ◌≡◌, refl, length, All, IsByte, arith, drop, length-drop, All-drop,
  drop-drop, inl, inr,
}
use polygon.Conv.Words.{get_uint64-eq, get_uint16-eq}
use polygon.Conv.Reader.{parse_be, advance-eq, be_cases, bytes_cases, cpymem-eq}
use polygon.Conv.Reads.{missing, cut, whole, varint_at}
use polygon.Conv.{advance, deref}
use polygon.Pkt.Frame.{Frame}
use polygon.Pkt.Frame.Grammar.{
  report, IsObject, varint_frame, two_varints_frame, rst_stream_frame, close_frame, ping_pong_frame,
  new_connection_id_frame, stop_sending_frame, padding_frame, zeros,
}
use polygon.Pkt.Frame.Decode.{
  decode_varint_frame, decode_two_varints_frame, decode_stop_sending_frame, decode_rst_stream_frame,
  decode_close_frame, decode_ping_pong_frame, decode_new_connection_id_frame, decode_padding_frame,
  skip_padding,
}

module _ (t : ℕ) (p : List ℕ) (bytes : All IsByte p) (small : IsObject (t ∷ p)) where
  pub decode_varint_frame-parses :
      (make : ℕ → Frame) → decode_varint_frame make (t ∷ p) ≡ report (t ∷ p) (varint_frame make p)
  unfolding decode_varint_frame advance
  decode_varint_frame-parses make = elim (varint_at p bytes) [
    | missing e none' ↦ ground arith
    | cut n len some' short few none' ↦ ground arith
    | whole n v len got parsed pos few enough small' ↦
        ground (arith, advance-eq n p, length-drop n p)
  ]

  pub decode_two_varints_frame-parses :
      (make : ℕ → ℕ → Frame)
      → decode_two_varints_frame make (t ∷ p) ≡ report (t ∷ p) (two_varints_frame make p)
  unfolding decode_two_varints_frame advance
  decode_two_varints_frame-parses make = elim (varint_at p bytes) [
    | missing e none' ↦ ground arith
    | cut n len some' short few none' ↦ ground arith
    | whole n v len got parsed pos few enough small' ↦
        elim (varint_at (drop n p) (All-drop IsByte n p bytes)) [
          | missing e none' ↦ ground (arith, advance-eq n p, length-drop n p)
          | cut n' len' some' short few' none' ↦ ground (arith, advance-eq n p, length-drop n p)
          | whole n' v' len' got' parsed' pos' few' enough' small'' ↦ ground (
            arith,
            advance-eq n p,
            length-drop n p,
            advance-eq n' (drop n p),
            length-drop n' (drop n p),
          )
        ]
  ]

  pub decode_stop_sending_frame-parses :
      decode_stop_sending_frame (t ∷ p) ≡ report (t ∷ p) (stop_sending_frame p)
  unfolding decode_stop_sending_frame advance
  decode_stop_sending_frame-parses = elim (varint_at p bytes) [
    | missing e none' ↦ ground arith
    | cut n len some' short few none' ↦ ground arith
    | whole n v len got parsed pos few enough small' ↦
        elim (be_cases 2 (drop n p) (All-drop IsByte n p bytes)) [
          | inl (short, none') ↦ ground (arith, advance-eq n p, length-drop n p)
          | inr (enough', r) ↦ ground (
            arith,
            advance-eq n p,
            length-drop n p,
            r.got,
            get_uint16-eq (drop n p),
            r.parsed,
            advance-eq 2 (drop n p),
            length-drop 2 (drop n p),
          )
        ]
  ]

  pub decode_rst_stream_frame-parses :
      decode_rst_stream_frame (t ∷ p) ≡ report (t ∷ p) (rst_stream_frame p)
  unfolding decode_rst_stream_frame advance
  decode_rst_stream_frame-parses = elim (varint_at p bytes) [
    | missing e none' ↦ ground arith
    | cut n len some' short few none' ↦ ground arith
    | whole n v len got parsed pos few enough small' ↦
        elim (be_cases 2 (drop n p) (All-drop IsByte n p bytes)) [
          | inl (short, none') ↦ ground (arith, length-drop n p)
          | inr (enough', r) ↦
              elim (varint_at (drop 2 (drop n p))
                (All-drop IsByte 2 _ (All-drop IsByte n p bytes))) [
                  | missing e none' ↦
                      ground (arith, r.parsed, length-drop n p, length-drop 2 (drop n p))
                  | cut n' len' some' short few' none' ↦ ground (
                    arith,
                    r.parsed,
                    advance-eq (n + 2) p,
                    drop-drop n 2 p,
                    length-drop n p,
                    length-drop 2 (drop n p),
                  )
                  | whole n' v' len' got' parsed' pos' few' enough'' small'' ↦ ground (
                    arith,
                    r.got,
                    get_uint16-eq (drop n p),
                    r.parsed,
                    advance-eq (n + 2) p,
                    drop-drop n 2 p,
                    advance-eq n p,
                    length-drop n p,
                    advance-eq 2 (drop n p),
                    length-drop 2 (drop n p),
                    advance-eq n' (drop 2 (drop n p)),
                    length-drop n' (drop 2 (drop n p)),
                  )
                ]
        ]
  ]

  pub decode_close_frame-parses :
      (make : ℕ → List ℕ → Frame)
      → decode_close_frame make (t ∷ p) ≡ report (t ∷ p) (close_frame make p)
  unfolding decode_close_frame advance
  decode_close_frame-parses make = elim (be_cases 2 p bytes) [
    | inl (short, none') ↦ ground arith
    | inr (enough, r) ↦ elim (varint_at (drop 2 p) (All-drop IsByte 2 p bytes)) [
      | missing e none' ↦ ground (arith, r.parsed, length-drop 2 p)
      | cut n len some' short few none' ↦ ground (arith, r.parsed, length-drop 2 p, advance-eq 2 p)
      | whole n v len got parsed pos few enough' small' ↦ elim (bytes_cases v (drop n (drop 2 p))) [
        | inl (short, none') ↦
            ground (arith, r.parsed, length-drop 2 p, advance-eq 2 p, length-drop n (drop 2 p))
        | inr (enough'', parsed') ↦ ground (
          arith,
          r.got,
          get_uint16-eq p,
          r.parsed,
          length-drop 2 p,
          advance-eq 2 p,
          advance-eq n (drop 2 p),
          length-drop n (drop 2 p),
          cpymem-eq v (drop n (drop 2 p)),
          advance-eq v (drop n (drop 2 p)),
          length-drop v (drop n (drop 2 p)),
        )
      ]
    ]
  ]

  pub decode_new_connection_id_frame-parses :
      decode_new_connection_id_frame (t ∷ p) ≡ report (t ∷ p) (new_connection_id_frame p)
  unfolding decode_new_connection_id_frame advance
  decode_new_connection_id_frame-parses = elim (varint_at p bytes) [
    | missing e none' ↦ ground arith
    | cut n len some' short few none' ↦ ground arith
    | whole n v len got parsed pos few enough small' ↦
        elim (be_cases 8 (drop n p) (All-drop IsByte n p bytes)) [
          | inl (short, none') ↦ ground (arith, length-drop n p)
          | inr (enough', r) ↦ elim (bytes_cases 16 (drop 8 (drop n p))) [
            | inl (short, none') ↦
                ground (arith, r.parsed, length-drop n p, length-drop 8 (drop n p))
            | inr (enough'', parsed') ↦ ground (
              arith,
              r.got,
              get_uint64-eq (drop n p),
              r.parsed,
              advance-eq n p,
              length-drop n p,
              advance-eq 8 (drop n p),
              length-drop 8 (drop n p),
              cpymem-eq 16 (drop 8 (drop n p)),
              advance-eq 16 (drop 8 (drop n p)),
              length-drop 16 (drop 8 (drop n p)),
            )
          ]
        ]
  ]

pub decode_ping_pong_frame-parses :
    (make : List ℕ → Frame) (t : ℕ) (p : List ℕ)
    → All IsByte p
    → IsObject (t ∷ p)
    → decode_ping_pong_frame make (t ∷ p) ≡ report (t ∷ p) (ping_pong_frame make p)
unfolding decode_ping_pong_frame advance deref parse_be
decode_ping_pong_frame-parses make t [] bytes small = ground arith
decode_ping_pong_frame-parses make t (b ∷ p) bytes small = elim (bytes_cases b p) [
  | inl (short, none') ↦ ground arith
  | inr (enough, parsed) ↦ ground (arith, cpymem-eq b p, advance-eq b p, length-drop b p)
]

zeros-skip_padding :
    (p : List ℕ) → ((zeros p).0 ≡ skip_padding p) × (length (zeros p).1 + skip_padding p ≡ length p)
unfolding zeros skip_padding
zeros-skip_padding [] = (refl, omega arith)
zeros-skip_padding (b ∷ p) = ground (arith, zeros-skip_padding p)

pub decode_padding_frame-parses :
    (t : ℕ) (p : List ℕ) → decode_padding_frame (t ∷ p) ≡ report (t ∷ p) (padding_frame p)
unfolding decode_padding_frame advance
decode_padding_frame-parses t p = ground (arith, zeros-skip_padding p)
