-- ===== src/Pkt/Frame/Variable.antt =====
-- The decoders of STREAM and ACK, whose fields vary, against the grammar.
use polygon.Base.{
  ℕ, suc, ◌+◌, List, ◌∷◌, ◌≡◌, length, All, IsByte, arith, drop, length-drop, All-drop, inl, inr,
  Bool, true, false, Bool-cases, if◌then◌else◌, ok, err, frame_format, ltb, ◌>>=◌, none, some,
}
use polygon.Conv.Reader.{parse_varint, advance-eq, bytes_cases, cpymem-eq}
use polygon.Conv.Reads.{missing, cut, whole, varint_at}
use polygon.Conv.{advance, deref}
use polygon.Pkt.Frame.{Frame}
use polygon.Pkt.Frame.Grammar.{report, IsObject, stream_frame, content_of}
use polygon.Pkt.Frame.Decode.{take_varint, has_bit}
use polygon.Pkt.Frame.DecodeStream.{
  decode_stream_frame, read_content, make_stream, skip_field, count_content, stream_off_bit,
  stream_len_bit,
}

-- What the helpers of the two passes do at a field that starts at `q`, where `len` counts the bytes
-- before it.
data FieldAt (payload q : List ℕ) (len : ℕ) : Type 0 where
  bad :
      parse_varint q ≡ none
      → skip_field payload q len ≡ err frame_format
      → count_content payload q len ≡ err frame_format
      → FieldAt payload q len
  good :
      (v n : ℕ) (r : List ℕ)
      → parse_varint q ≡ some (v, r)
      → take_varint q ≡ ok (v, r)
      → skip_field payload q len ≡ ok (r, n)
      → count_content payload q len ≡ (if ltb (length r) v then err frame_format else ok (n + v))
      → n + length r ≡ length payload
      → All IsByte r
      → FieldAt payload q len

field_at :
    (payload q : List ℕ) (len : ℕ)
    → IsObject payload
    → All IsByte q
    → len + length q ≡ length payload
    → FieldAt payload q len
unfolding skip_field count_content take_varint
field_at payload q len small bytes e = elim (varint_at q bytes) [
  | missing none-left none' ↦ bad none' (ground arith) (ground arith)
  | cut n len' some' short few none' ↦ bad none' (ground arith) (ground arith)
  | whole n v len' got parsed pos few enough small' ↦
      good v (len + n) (drop n q) parsed (ground (arith, advance-eq n q))
        (ground (arith, advance-eq n q)) (ground (arith, length-drop n q))
        (omega (arith, length-drop n q)) (All-drop IsByte n q bytes)
]

-- The last field: the second pass returns what the content parser gives.
content_at :
    (payload q : List ℕ) (len : ℕ) (b : Bool) (make : List ℕ → Frame)
    → FieldAt payload q len
    → len + length q ≡ length payload
    → (do
      len' ← (if b then count_content payload q len else ok len)
      read_content payload q len' b make)
      ≡ report payload (content_of b make q)
unfolding read_content
content_at payload q len false make f e = ground arith
content_at payload q len true make (bad none' _ wrong) e = ground arith
content_at payload q len true make (good v n r parsed taken _ counted total _) e =
    elim (bytes_cases v r) [
      | inl (short, none') ↦ ground (arith, e)
      | inr (enough, parsed') ↦ ground (arith, cpymem-eq v r, advance-eq v r, length-drop v r)
    ]

module _ (t : ℕ) (p : List ℕ) (bytes : All IsByte p) (small : IsObject (t ∷ p)) where
  pub decode_stream_frame-parses : decode_stream_frame (t ∷ p) ≡ report (t ∷ p) (stream_frame t p)
  unfolding decode_stream_frame advance deref
  decode_stream_frame-parses = elim (varint_at p bytes) [
    | missing e none' ↦ ground arith
    | cut n len some' short few none' ↦ ground arith
    | whole n v len got parsed pos few enough small' ↦
        let q : List ℕ = drop n p in
        let bytes' : All IsByte q = All-drop IsByte n p bytes in
        let total : 1 + n + length q ≡ suc (length p) = omega (arith, length-drop n p) in
        elim (Bool-cases (has_bit t stream_off_bit)) [
          | inl on ↦ rw on (elim (field_at (t ∷ p) q (1 + n) small bytes' total) [
            | bad none' wrong _ ↦ ground (arith, advance-eq n p)
            | good v' n' r parsed' taken skipped _ total' bytes'' ↦ ground (
              arith,
              advance-eq n p,
              content_at (t ∷ p) r n' (has_bit t stream_len_bit) (make_stream t v v')
                  (field_at (t ∷ p) r n' small bytes'' total') total',
            )
          ])
          | inr off ↦ rw off (
              ground (
                arith,
                advance-eq n p,
                content_at (t ∷ p) q (1 + n) (has_bit t stream_len_bit) (make_stream t v 0)
                    (field_at (t ∷ p) q (1 + n) small bytes' total) total,
              ))
        ]
  ]
