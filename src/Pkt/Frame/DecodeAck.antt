-- ===== src/Pkt/Frame/DecodeAck.antt =====
-- `ngtcp2_pkt_decode_ack_frame`: one pass over the blocks to see that they are there, a second to read them.
use polygon.Base.{
  ℕ, zero, suc, ◌-◌, ◌*◌, ◌%◌, ◌^◌, List, [], ◌∷◌, ltb, Result, ok, ◌>>=◌, ◌>>◌, add64,
  if◌then◌else◌,
}
use polygon.Conv.{advance, get_varint_len, get_varint}
use polygon.Pkt.Frame.{Frame, AckBlk}
use polygon.Pkt.Frame.Decode.{check, finish, walk_field, take_varint}

-- The first pass over the blocks: a gap and a length each.
unfoldable pub walk_blocks : List ℕ → ℕ → List ℕ → ℕ → Result (List ℕ × ℕ)
walk_blocks payload zero p len = ok (p, len)
walk_blocks payload (suc n) p len = do
  (q, len') ← walk_field payload p len
  (r, len'') ← walk_field payload q len'
  walk_blocks payload n r len''

-- The second pass, over the blocks that are kept.
unfoldable pub read_blocks : ℕ → List ℕ → Result (List AckBlk × List ℕ)
read_blocks zero p = ok ([], p)
read_blocks (suc n) p = do
  (gap, q) ← take_varint p
  (blklen, r) ← take_varint q
  (blks, s) ← read_blocks n r
  ok (record { gap = gap; blklen = blklen } ∷ blks, s)

-- `p += ngtcp2_get_varint_len(p);`
unfoldable pub step_over : List ℕ → Result (List ℕ)
step_over p = do n ← get_varint_len p; advance n p

-- And over those that are not.
unfoldable pub skip_blocks : ℕ → List ℕ → Result (List ℕ)
skip_blocks zero p = ok p
skip_blocks (suc n) p = do q ← step_over p; r ← step_over q; skip_blocks n r

-- NGTCP2_MAX_ACK_BLKS
abbrev pub max_ack_blks : ℕ
max_ack_blks = 255

-- The block count, and the pointer and the length behind it; two bytes at least for each block.
unfoldable pub walk_count : List ℕ → List ℕ → ℕ → Result (ℕ × List ℕ × ℕ)
walk_count payload p len = do
  n ← get_varint_len p
  let len' = add64 len (n - 1)
  check payload len'
  (num_blks, n') ← get_varint p
  let len'' = add64 len' (num_blks * 2 % 2 ^ 64)
  check payload len''
  q ← advance n' p
  ok (num_blks, q, len'')

unfoldable pub decode_ack_frame : List ℕ → Result (Frame × ℕ)
decode_ack_frame payload = do
  check payload 5
  p ← advance 1 payload
  (q, len) ← walk_field payload p 5
  (q', len') ← walk_field payload q len
  (num_blks, q'', len'') ← walk_count payload q' len'
  (q3, len3) ← walk_field payload q'' len''
  (_, len4) ← walk_blocks payload num_blks q3 len3
  let max_num_blks = if ltb max_ack_blks num_blks then max_ack_blks else num_blks
  (largest_ack, r) ← take_varint p
  (ack_delay, r') ← take_varint r
  r'' ← step_over r'
  (first_ack_blklen, r3) ← take_varint r''
  (blks, r4) ← read_blocks max_num_blks r3
  r5 ← skip_blocks (num_blks - max_num_blks) r4
  finish payload r5 len4 (
      Frame.ack (record {
        largest_ack = largest_ack;
        ack_delay = ack_delay;
        first_ack_blklen = first_ack_blklen;
        blks = blks;
      }))
