-- ===== src/Pkt/Frame/Parts.antt =====
-- The grammar of each kind of frame at the wire image of such a frame.
use polygon.Base.{
  ℕ, zero, suc, List, [], ◌∷◌, ◌++◌, ◌≡◌, refl, length, replicate, All, All-append, IsByte, IsU16,
  IsU64, arith, append_assoc, some,
}
use polygon.Conv.{put_uint16be, put_uint64be}
use polygon.Conv.Words.{put_be-IsByte}
use polygon.Conv.Reader.{parse_be}
use polygon.Conv.Reads.{parse_varint-varint, parse_be-put_be, parse_bytes-append}
use polygon.Conv.Varint.{IsVarint, varint, varint-IsByte}
use polygon.Pkt.Frame.{Frame, AckBlk}
use polygon.Pkt.Frame.Grammar.{
  varint_frame, two_varints_frame, rst_stream_frame, close_frame, ping_pong_frame,
  new_connection_id_frame, stop_sending_frame, zeros, ack_blocks,
}
use polygon.Pkt.Frame.WireAck.{IsAckBlk, blocks_wire}
use polygon.Pkt.Frame.Image.{Follows}

pub blocks_wire-IsByte : (blks : List AckBlk) → All IsAckBlk blks → All IsByte (blocks_wire blks)
unfolding blocks_wire
blocks_wire-IsByte [] h = tt
blocks_wire-IsByte (b ∷ blks) (hb, h) =
    All-append IsByte (varint b.gap) (varint b.blklen ++ blocks_wire blks)
      (varint-IsByte b.gap hb.gap_fits)
      (All-append IsByte (varint b.blklen) (blocks_wire blks)
        (varint-IsByte b.blklen hb.blklen_fits) (blocks_wire-IsByte blks h))

module _ (rest : List ℕ) (bytes : All IsByte rest) where
  pub varint_frame-wire :
      (make : ℕ → Frame) (v : ℕ)
      → IsVarint v
      → varint_frame make (varint v ++ rest) ≡ some (make v, rest)
  varint_frame-wire make v h = ground (arith, parse_varint-varint v rest h bytes)

  pub varint_bytes : (v : ℕ) → IsVarint v → All IsByte (varint v ++ rest)
  varint_bytes v h = All-append IsByte (varint v) rest (varint-IsByte v h) bytes

  pub two_varints_frame-wire :
      (make : ℕ → ℕ → Frame) (v w : ℕ)
      → IsVarint v
      → IsVarint w
      → two_varints_frame make ((varint v ++ varint w) ++ rest) ≡ some (make v w, rest)
  two_varints_frame-wire make v w hv hw = rw append_assoc (
      ground (
        arith,
        parse_varint-varint v (varint w ++ rest) hv (varint_bytes w hw),
        parse_varint-varint w rest hw bytes,
      ))

  pub rst_stream_frame-wire :
      (i c o : ℕ)
      → IsVarint i
      → IsU16 c
      → IsVarint o
      → rst_stream_frame ((varint i ++ (put_uint16be c ++ varint o)) ++ rest)
        ≡ some (Frame.rst_stream i c o, rest)
  rst_stream_frame-wire i c o hi hc ho =
      let bo : All IsByte (varint o ++ rest) = varint_bytes o ho in
      rw (append_assoc, append_assoc)
        (ground (
          arith,
          parse_varint-varint i (put_uint16be c ++ (varint o ++ rest)) hi
              (All-append IsByte (put_uint16be c) (varint o ++ rest) (put_be-IsByte 2 c) bo),
          parse_be-put_be 2 c (varint o ++ rest) bo,
          parse_varint-varint o rest ho bytes,
        ))

  pub close_frame-wire :
      (make : ℕ → List ℕ → Frame) (c : ℕ) (r : List ℕ)
      → IsU16 c
      → IsVarint (length r)
      → All IsByte r
      → close_frame make ((put_uint16be c ++ (varint (length r) ++ r)) ++ rest)
        ≡ some (make c r, rest)
  close_frame-wire make c r hc hr br =
      let n : ℕ = length r in
      let b : All IsByte (r ++ rest) = All-append IsByte r rest br bytes in
      rw (append_assoc, append_assoc)
        (ground (
          arith,
          parse_be-put_be 2 c (varint n ++ (r ++ rest))
              (All-append IsByte (varint n) (r ++ rest) (varint-IsByte n hr) b),
          parse_varint-varint n (r ++ rest) hr b,
          parse_bytes-append r rest,
        ))

  pub ping_pong_frame-wire :
      (make : List ℕ → Frame) (d : List ℕ)
      → ping_pong_frame make (length d ∷ (d ++ rest)) ≡ some (make d, rest)
  unfolding parse_be
  ping_pong_frame-wire make d = ground (arith, parse_bytes-append d rest)

  pub new_connection_id_frame-wire :
      (s c : ℕ) (t : List ℕ)
      → IsU16 s
      → IsU64 c
      → length t ≡ 16
      → All IsByte t
      → new_connection_id_frame ((varint s ++ (put_uint64be c ++ t)) ++ rest)
        ≡ some (Frame.new_connection_id s c t, rest)
  new_connection_id_frame-wire s c t hs hc ht bt =
      let b : All IsByte (t ++ rest) = All-append IsByte t rest bt bytes in
      rw (append_assoc, append_assoc)
        (ground (
          arith,
          parse_varint-varint s (put_uint64be c ++ (t ++ rest)) (omega arith)
              (All-append IsByte (put_uint64be c) (t ++ rest) (put_be-IsByte 8 c) b),
          parse_be-put_be 8 c (t ++ rest) b,
          parse_bytes-append t rest,
        ))

  pub stop_sending_frame-wire :
      (i c : ℕ)
      → IsVarint i
      → IsU16 c
      → stop_sending_frame ((varint i ++ put_uint16be c) ++ rest)
        ≡ some (Frame.stop_sending i c, rest)
  stop_sending_frame-wire i c hi hc = rw append_assoc (
      ground (
        arith,
        parse_varint-varint i (put_uint16be c ++ rest) hi
            (All-append IsByte (put_uint16be c) rest (put_be-IsByte 2 c) bytes),
        parse_be-put_be 2 c rest bytes,
      ))

  pub ack_blocks-wire :
      (blks : List AckBlk)
      → All IsAckBlk blks
      → ack_blocks (length blks) (blocks_wire blks ++ rest) ≡ some (blks, rest)
  unfolding ack_blocks blocks_wire
  ack_blocks-wire [] h = refl
  ack_blocks-wire (b ∷ blks) (hb, h) =
      let bb : All IsByte (blocks_wire blks ++ rest) =
        All-append IsByte (blocks_wire blks) rest (blocks_wire-IsByte blks h) bytes in
      let bl : All IsByte (varint b.blklen ++ (blocks_wire blks ++ rest)) =
        All-append IsByte (varint b.blklen) (blocks_wire blks ++ rest)
          (varint-IsByte b.blklen hb.blklen_fits) bb in
      rw (append_assoc, append_assoc)
        (ground (
          arith,
          parse_varint-varint b.gap (varint b.blklen ++ (blocks_wire blks ++ rest)) hb.gap_fits bl,
          parse_varint-varint b.blklen (blocks_wire blks ++ rest) hb.blklen_fits bb,
          ack_blocks-wire blks h,
        ))

pub zeros-replicate :
    (n m : ℕ) (rest : List ℕ)
    → Follows (Frame.padding m) rest
    → zeros (replicate n 0 ++ rest) ≡ (n, rest)
unfolding zeros
zeros-replicate zero m [] h = refl
zeros-replicate zero m (b ∷ rest) h = ground arith
zeros-replicate (suc n) m rest h = ground (arith, zeros-replicate n m rest h)
