-- ===== src/Pkt/Frame/AckParse.antt =====
-- `decode_ack_frame` against the grammar.
use polygon.Base.{
  ℕ, suc, ◌+◌, ◌-◌, ◌≤◌, ◌<◌, List, ◌∷◌, ◌≡◌, sym, ◌∙◌, take_ge, length, All, IsByte, arith, drop,
  length-drop, All-drop, inl, inr, if◌then◌else◌, ok, err, frame_format, ltb, none, some, take,
  ltb-cases,
}
use polygon.Conv.{advance}
use polygon.Conv.Reader.{parse_varint, advance-eq}
use polygon.Conv.Reads.{missing, cut, whole, varint_at}
use polygon.Pkt.Frame.{AckBlk}
use polygon.Pkt.Frame.Grammar.{
  report, IsObject, ack_blocks, ack_frame, ack_from_delay, ack_from_count, ack_from_first,
}
use polygon.Pkt.Frame.DecodeAck.{walk_count, step_over, max_ack_blks, decode_ack_frame}
use polygon.Pkt.Frame.AckBlocks.{
  WalkAt, walk_at, BlocksAt, blocks_at, ack_blocks_short, length-ack_blocks, read_then_skip,
}
use polygon.Pkt.Frame.AckBlocks

-- Fewer bytes than fields do not parse.
first_short :
    (a d n : ℕ) (q : List ℕ) → All IsByte q → length q < 1 + (n + n) → ack_from_first a d n q ≡ none
first_short a d n q bytes h = elim (varint_at q bytes) [
  | missing _ none' ↦ ground arith
  | cut _ _ _ _ _ none' ↦ ground arith
  | whole m v _ _ parsed pos _ enough _ ↦ ground (
    arith,
    ack_blocks_short n (drop m q) (All-drop IsByte m q bytes) (omega (arith, length-drop m q)),
  )
]

count_short : (a d : ℕ) (q : List ℕ) → All IsByte q → length q < 2 → ack_from_count a d q ≡ none
count_short a d q bytes h = elim (varint_at q bytes) [
  | missing _ none' ↦ ground arith
  | cut _ _ _ _ _ none' ↦ ground arith
  | whole m v _ _ parsed pos _ enough _ ↦ ground (
    arith,
    first_short a d v (drop m q) (All-drop IsByte m q bytes) (omega (arith, length-drop m q)),
  )
]

delay_short : (a : ℕ) (q : List ℕ) → All IsByte q → length q < 3 → ack_from_delay a q ≡ none
delay_short a q bytes h = elim (varint_at q bytes) [
  | missing _ none' ↦ ground arith
  | cut _ _ _ _ _ none' ↦ ground arith
  | whole m v _ _ parsed pos _ enough _ ↦ ground (
    arith,
    count_short a v (drop m q) (All-drop IsByte m q bytes) (omega (arith, length-drop m q)),
  )
]

-- The block count at `q`, with one more field behind it.
data CountAt (payload q : List ℕ) (len : ℕ) : Type 0 where
  bad : parse_varint q ≡ none → walk_count payload q len ≡ err frame_format → CountAt payload q len
  short :
      (v : ℕ) (r : List ℕ)
      → parse_varint q ≡ some (v, r)
      → length r < 1 + (v + v)
      → All IsByte r
      → walk_count payload q len ≡ err frame_format
      → CountAt payload q len
  good :
      (v n : ℕ) (r : List ℕ)
      → parse_varint q ≡ some (v, r)
      → step_over q ≡ ok r
      → walk_count payload q len ≡ ok (v, r, n)
      → n + length r ≡ length payload + suc (v + v)
      → n ≤ length payload
      → All IsByte r
      → CountAt payload q len

count_at :
    (payload q : List ℕ) (len : ℕ)
    → IsObject payload
    → All IsByte q
    → len + length q ≡ length payload + 2
    → len ≤ length payload
    → CountAt payload q len
unfolding walk_count step_over
count_at payload q len small bytes e fits = elim (varint_at q bytes) [
  | missing none-left none' ↦ absurd (omega arith)
  | cut n len' some' lack few none' ↦ bad none' (ground arith)
  | whole n v len' got parsed pos few enough small' ↦
      elim (ltb-cases (length q - n) (1 + (v + v))) [
        | inl (lt, _) ↦
            short v (drop n q) parsed (omega (arith, length-drop n q)) (All-drop IsByte n q bytes)
              (ground arith)
        | inr (ge, _) ↦
            good v (len + n - 1 + (v + v)) (drop n q) parsed (ground (arith, advance-eq n q))
              (ground (arith, advance-eq n q)) (omega (arith, length-drop n q))
              (omega (arith, length-drop n q)) (All-drop IsByte n q bytes)
      ]
]

-- `ngtcp2_min(NGTCP2_MAX_ACK_BLKS, num_blks)`
abbrev kept : ℕ → ℕ
kept n = if ltb max_ack_blks n then max_ack_blks else n

-- The first 255 blocks of a list of `n` are its first `kept n`.
take-kept :
    (n : ℕ) (q : List ℕ) (blks : List AckBlk) (r : List ℕ)
    → ack_blocks n q ≡ some (blks, r)
    → take (kept n) blks ≡ take max_ack_blks blks
take-kept n q blks r e = elim (ltb-cases max_ack_blks n) [
  | inl (_, t) ↦ rw t
  | inr (le, t) ↦ rw t (
      take_ge n blks (omega (arith, length-ack_blocks n q e))
      ∙ sym (take_ge max_ack_blks blks (omega (arith, length-ack_blocks n q e))))
]

kept_add : (n : ℕ) → kept n + (n - kept n) ≡ n
kept_add n = ground arith

all_short : (q : List ℕ) → All IsByte q → length q < 4 → ack_frame q ≡ none
all_short q bytes h = elim (varint_at q bytes) [
  | missing _ none' ↦ ground arith
  | cut _ _ _ _ _ none' ↦ ground arith
  | whole m v _ _ parsed pos _ enough _ ↦
      ground (
        arith,
        delay_short v (drop m q) (All-drop IsByte m q bytes) (omega (arith, length-drop m q)),
      )
]

pub decode_ack_frame-parses :
    (t : ℕ) (p : List ℕ)
    → All IsByte p
    → IsObject (t ∷ p)
    → decode_ack_frame (t ∷ p) ≡ report (t ∷ p) (ack_frame p)
unfolding decode_ack_frame advance read_then_skip
decode_ack_frame-parses t p bytes small = elim (ltb-cases (length (t ∷ p)) 5) [
  | inl (lt, _) ↦ ground (arith, all_short p bytes (omega arith))
  | inr (ge, _) ↦ elim (walk_at (t ∷ p) p 5 3 small bytes (omega arith) ge) [
    | AckBlocks.WalkAt.bad none' wrong ↦ ground arith
    | AckBlocks.WalkAt.short v r parsed few bytes' wrong ↦
        ground (arith, delay_short v r bytes' few)
    | AckBlocks.WalkAt.good v n r parsed taken stepped walked total fits bytes' ↦
        elim (walk_at (t ∷ p) r n 2 small bytes' total fits) [
          | AckBlocks.WalkAt.bad none' wrong ↦ ground arith
          | AckBlocks.WalkAt.short v' r' parsed' few bytes'' wrong ↦
              ground (arith, count_short v v' r' bytes'' few)
          | AckBlocks.WalkAt.good v' n' r' parsed' taken' stepped' walked' total' fits' bytes'' ↦
              elim (count_at (t ∷ p) r' n' small bytes'' total' fits') [
                | bad none' wrong ↦ ground arith
                | short c r3 parsed3 few bytes3 wrong ↦
                    ground (arith, first_short v v' c r3 bytes3 few)
                | good c n3 r3 parsed3 stepped3 counted total3 fits3 bytes3 ↦
                    elim (walk_at (t ∷ p) r3 n3 (c + c) small bytes3 total3 fits3) [
                      | AckBlocks.WalkAt.bad none' wrong ↦ ground arith
                      | AckBlocks.WalkAt.short v4 r4 parsed4 few bytes4 wrong ↦
                          ground (arith, ack_blocks_short c r4 bytes4 few)
                      | AckBlocks.WalkAt.good v4 n4 r4 parsed4 taken4 _ walked4 total4 fits4
                            bytes4 ↦
                          elim (blocks_at c (t ∷ p) r4 n4 small bytes4 total4 fits4) [
                            | AckBlocks.BlocksAt.bad none' wrong ↦ ground arith
                            | AckBlocks.BlocksAt.good blks r5 parsed5 walked5 split small5 ↦
                                ground (
                                  arith,
                                  split (kept c) (c - kept c) (kept_add c),
                                  take-kept c r4 blks r5 parsed5,
                                )
                          ]
                    ]
              ]
        ]
  ]
]
