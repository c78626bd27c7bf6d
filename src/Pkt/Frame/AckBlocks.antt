-- ===== src/Pkt/Frame/AckBlocks.antt =====
-- The two passes of `decode_ack_frame` over the blocks, against the grammar.
use polygon.Base.{
  ℕ, zero, suc, ◌+◌, ◌-◌, ◌≤◌, ◌<◌, List, [], ◌∷◌, ◌≡◌, refl, length, All, IsByte, arith, drop,
  length-drop, All-drop, inl, inr, Result, ok, err, frame_format, ◌>>=◌, none, some, take,
  ltb-cases,
}
use polygon.Conv.Reader.{parse_varint, advance-eq, >>=-eq-some}
use polygon.Conv.Reads.{missing, cut, whole, varint_at}
use polygon.Pkt.Frame.{AckBlk}
use polygon.Pkt.Frame.Grammar.{IsObject, ack_blocks}
use polygon.Pkt.Frame.Decode.{walk_field, take_varint}
use polygon.Pkt.Frame.DecodeAck.{step_over, walk_blocks, read_blocks, skip_blocks}

-- What the helpers do at a field that starts at `q`, where `len` counts the bytes before it and one
-- for it and for each of the `k` fields behind it.
pub data WalkAt (payload q : List ℕ) (len k : ℕ) : Type 0 where
  bad : parse_varint q ≡ none → walk_field payload q len ≡ err frame_format → WalkAt payload q len k
  short :
      (v : ℕ) (r : List ℕ)
      → parse_varint q ≡ some (v, r)
      → length r < k
      → All IsByte r
      → walk_field payload q len ≡ err frame_format
      → WalkAt payload q len k
  good :
      (v n : ℕ) (r : List ℕ)
      → parse_varint q ≡ some (v, r)
      → take_varint q ≡ ok (v, r)
      → step_over q ≡ ok r
      → walk_field payload q len ≡ ok (r, n)
      → n + length r ≡ length payload + k
      → n ≤ length payload
      → All IsByte r
      → WalkAt payload q len k

pub walk_at :
    (payload q : List ℕ) (len k : ℕ)
    → IsObject payload
    → All IsByte q
    → len + length q ≡ length payload + suc k
    → len ≤ length payload
    → WalkAt payload q len k
unfolding walk_field take_varint step_over
walk_at payload q len k small bytes e fits = elim (varint_at q bytes) [
  | missing none-left none' ↦ absurd (omega arith)
  | cut n len' some' lack few none' ↦ bad none' (ground arith)
  | whole n v len' got parsed pos few enough small' ↦ elim (ltb-cases (length q - n) k) [
    | inl (lt, _) ↦
        short v (drop n q) parsed (omega (arith, length-drop n q)) (All-drop IsByte n q bytes)
          (ground arith)
    | inr (ge, _) ↦
        good v (len + n - 1) (drop n q) parsed (ground (arith, advance-eq n q))
          (ground (arith, advance-eq n q)) (ground (arith, advance-eq n q))
          (omega (arith, length-drop n q)) (omega (arith, length-drop n q))
          (All-drop IsByte n q bytes)
  ]
]

-- Fewer bytes than fields do not parse.
pub ack_blocks_short :
    (n : ℕ) (q : List ℕ) → All IsByte q → length q < n + n → ack_blocks n q ≡ none
unfolding ack_blocks
ack_blocks_short zero q bytes h = absurd (omega arith)
ack_blocks_short (suc n) q bytes h = elim (varint_at q bytes) [
  | missing _ none' ↦ ground arith
  | cut _ _ _ _ _ none' ↦ ground arith
  | whole m v _ _ parsed pos _ enough _ ↦
      let bytes' : All IsByte (drop m q) = All-drop IsByte m q bytes in
      elim (varint_at (drop m q) bytes') [
        | missing _ none' ↦ ground arith
        | cut _ _ _ _ _ none' ↦ ground arith
        | whole m' v' _ _ parsed' pos' _ enough' _ ↦
            let r : List ℕ = drop m' (drop m q) in
            let few : length r < n + n =
              omega (arith, length-drop m q, length-drop m' (drop m q)) in
            ground (arith, ack_blocks_short n r (All-drop IsByte m' (drop m q) bytes') few)
      ]
]

-- `m` blocks read and `k` skipped.
unfoldable pub read_then_skip : ℕ → ℕ → List ℕ → Result (List AckBlk × List ℕ)
read_then_skip m k q = do (blks, r) ← read_blocks m q; s ← skip_blocks k r; ok (blks, s)

pub data BlocksAt (payload q : List ℕ) (len n : ℕ) : Type 0 where
  bad :
      ack_blocks n q ≡ none
      → walk_blocks payload n q len ≡ err frame_format
      → BlocksAt payload q len n
  good :
      (blks : List AckBlk) (r : List ℕ)
      → ack_blocks n q ≡ some (blks, r)
      → walk_blocks payload n q len ≡ ok (r, length payload - length r)
      → ((m k : ℕ) → m + k ≡ n → read_then_skip m k q ≡ ok (take m blks, r))
      → length r ≤ length payload
      → BlocksAt payload q len n

-- One block further.
read_then_skip_step :
    (m k a b : ℕ) (q r s t : List ℕ) (blks : List AckBlk)
    → take_varint q ≡ ok (a, r)
    → take_varint r ≡ ok (b, s)
    → read_then_skip m k s ≡ ok (blks, t)
    → read_then_skip (suc m) k q ≡ ok (record { gap = a; blklen = b } ∷ blks, t)
unfolding read_then_skip read_blocks
read_then_skip_step m k a b q r s t blks e e' h = ground arith

read_then_skip_zero :
    (k : ℕ) (q r s t : List ℕ) (blks : List AckBlk)
    → step_over q ≡ ok r
    → step_over r ≡ ok s
    → read_then_skip 0 k s ≡ ok (blks, t)
    → read_then_skip 0 (suc k) q ≡ ok (blks, t)
unfolding read_then_skip read_blocks skip_blocks
read_then_skip_zero k q r s t blks e e' h = ground arith

read_then_skip_none : (q : List ℕ) (m k : ℕ) → m + k ≡ 0 → read_then_skip m k q ≡ ok (take m [], q)
unfolding read_then_skip read_blocks skip_blocks
read_then_skip_none q zero zero e = refl
read_then_skip_none q zero (suc k) e = absurd (omega arith)
read_then_skip_none q (suc m) k e = absurd (omega arith)

read_then_skip_more :
    (n a b : ℕ) (q r s t : List ℕ) (blks : List AckBlk)
    → take_varint q ≡ ok (a, r)
    → take_varint r ≡ ok (b, s)
    → step_over q ≡ ok r
    → step_over r ≡ ok s
    → ((m k : ℕ) → m + k ≡ n → read_then_skip m k s ≡ ok (take m blks, t))
    → (m k : ℕ) → m + k ≡ suc n
    → read_then_skip m k q ≡ ok (take m (record { gap = a; blklen = b } ∷ blks), t)
read_then_skip_more n a b q r s t blks e e' g g' split zero zero h = absurd (omega arith)
read_then_skip_more n a b q r s t blks e e' g g' split zero (suc k) h =
    read_then_skip_zero k q r s t [] g g' (split zero k (omega arith))
read_then_skip_more n a b q r s t blks e e' g g' split (suc m) k h =
    read_then_skip_step m k a b q r s t (take m blks) e e' (split m k (omega arith))

-- Too few bytes behind the gap of the first block.
ack_blocks_cut :
    (n v : ℕ) (q r : List ℕ)
    → All IsByte r
    → parse_varint q ≡ some (v, r)
    → length r < n + n + 1
    → ack_blocks (suc n) q ≡ none
unfolding ack_blocks
ack_blocks_cut n v q r bytes parsed h = elim (varint_at r bytes) [
  | missing _ none' ↦ ground arith
  | cut _ _ _ _ _ none' ↦ ground arith
  | whole m v' _ _ parsed' pos _ enough _ ↦ ground (
    arith,
    ack_blocks_short n (drop m r) (All-drop IsByte m r bytes) (omega (arith, length-drop m r)),
  )
]

pub blocks_at :
    (n : ℕ) (payload q : List ℕ) (len : ℕ)
    → IsObject payload
    → All IsByte q
    → len + length q ≡ length payload + (n + n)
    → len ≤ length payload
    → BlocksAt payload q len n
unfolding ack_blocks walk_blocks
blocks_at zero payload q len small bytes e fits =
    good [] q refl (ground arith) (read_then_skip_none q) (omega arith)
blocks_at (suc n) payload q len small bytes e fits =
    elim (walk_at payload q len (n + n + 1) small bytes (omega arith) fits) [
      | bad none' wrong ↦ bad (ground arith) (ground arith)
      | short v r parsed few bytes' wrong ↦
          bad (ack_blocks_cut n v q r bytes' parsed few) (ground arith)
      | good v len' r parsed taken stepped walked total fits' bytes' ↦
          elim (walk_at payload r len' (n + n) small bytes' (omega arith) fits') [
            | bad none' wrong ↦ bad (ground arith) (ground arith)
            | short v' s parsed' few bytes'' wrong ↦
                bad (ground (arith, ack_blocks_short n s bytes'' few)) (ground arith)
            | good v' len'' s parsed' taken' stepped' walked' total' fits'' bytes'' ↦
                elim (blocks_at n payload s len'' small bytes'' total' fits'') [
                  | bad none' wrong ↦ bad (ground arith) (ground arith)
                  | good blks t parsed'' walked'' split small' ↦
                      good (record { gap = v; blklen = v' } ∷ blks) t (ground arith) (ground arith)
                        (read_then_skip_more n v v' q r s t blks taken taken' stepped stepped'
                          split)
                        small'
                ]
          ]
    ]

-- The grammar gives as many blocks as it is asked for.
pub length-ack_blocks :
    (n : ℕ) (q : List ℕ) {blks : List AckBlk} {r : List ℕ}
    → ack_blocks n q ≡ some (blks, r)
    → length blks ≡ n
unfolding ack_blocks
length-ack_blocks zero q e = ground arith
length-ack_blocks (suc n) q {blks = blks} {r = r} e =
    let (a, q', _, e') = >>=-eq-some parse_varint _ q e in
    let (b, q'', _, e'') = >>=-eq-some parse_varint _ q' e' in
    let (l, s, h, e3) = >>=-eq-some (ack_blocks n) _ q'' e'' in
    ground (arith, length-ack_blocks n q'' h, e3)
