-- ===== src/Pkt/Frame/WireAck.antt =====
-- The encoder of ACK frames against the wire image of such a frame.
use polygon.Base.{
  ℕ, ◌+◌, ◌*◌, ◌^◌, ◌≤◌, ◌<◌, List, [], ◌∷◌, ◌++◌, ◌≡◌, refl, ap, length, All, ok, arith,
  length-append, add64,
}
use polygon.Conv.Varint.{IsVarint, varint, put_varint-eq, put_varint_len-eq, length-varint}
use polygon.Pkt.Frame.{Ack, AckBlk}
use polygon.Pkt.Frame.Encode.{encode_ack_frame, blocks_len, put_blocks}
use polygon.Pkt.Frame.Wire.{output}

pub record IsAckBlk (b : AckBlk) : Type 0 where
  pub gap_fits : IsVarint b.gap
  pub blklen_fits : IsVarint b.blklen

pub record IsAck (fr : Ack) : Type 0 where
  pub largest_fits : IsVarint fr.largest_ack
  pub delay_fits : IsVarint fr.ack_delay
  pub first_fits : IsVarint fr.first_ack_blklen
  pub few : length fr.blks ≤ 255
  pub blks_fit : All IsAckBlk fr.blks

unfoldable pub blocks_wire : List AckBlk → List ℕ
blocks_wire [] = []
blocks_wire (b ∷ blks) = varint b.gap ++ (varint b.blklen ++ blocks_wire blks)

abbrev pub ack_wire : Ack → List ℕ
ack_wire fr =
    0x0e
    ∷ (varint fr.largest_ack
        ++ (varint fr.ack_delay
            ++ (varint (length fr.blks) ++ (varint fr.first_ack_blklen ++ blocks_wire fr.blks))))

length-blocks_wire :
    (blks : List AckBlk) → All IsAckBlk blks → length (blocks_wire blks) ≤ 16 * length blks
unfolding blocks_wire
length-blocks_wire [] h = omega arith
length-blocks_wire (b ∷ blks) (hb, h) = omega (
  arith,
  length-append (varint b.gap) (varint b.blklen ++ blocks_wire blks),
  length-append (varint b.blklen) (blocks_wire blks),
  length-varint b.gap hb.gap_fits,
  length-varint b.blklen hb.blklen_fits,
  length-blocks_wire blks h,
)

blocks_len-eq :
    (blks : List AckBlk) (len : ℕ)
    → All IsAckBlk blks
    → len + 16 * length blks < 2 ^ 64
    → blocks_len len blks ≡ ok (len + length (blocks_wire blks))
unfolding blocks_len blocks_wire
blocks_len-eq [] len h small = ap ok (omega arith)
blocks_len-eq (b ∷ blks) len (hb, h) small =
    let n : ℕ = length (varint b.gap) in
    let m : ℕ = length (varint b.blklen) in
    ground (
      arith,
      put_varint_len-eq b.gap hb.gap_fits,
      put_varint_len-eq b.blklen hb.blklen_fits,
      length-varint b.gap hb.gap_fits,
      length-varint b.blklen hb.blklen_fits,
      length-append (varint b.gap) (varint b.blklen ++ blocks_wire blks),
      length-append (varint b.blklen) (blocks_wire blks),
      blocks_len-eq blks (add64 (add64 len n) m) h,
    )

put_blocks-eq : (blks : List AckBlk) → All IsAckBlk blks → put_blocks blks ≡ ok (blocks_wire blks)
unfolding put_blocks blocks_wire
put_blocks-eq [] h = refl
put_blocks-eq (b ∷ blks) (hb, h) =
    rw (put_varint-eq _ hb.gap_fits, put_varint-eq _ hb.blklen_fits, put_blocks-eq blks h)

pub encode_ack_frame-output :
    (outlen : ℕ) (fr : Ack) → IsAck fr → encode_ack_frame outlen fr ≡ output outlen (ack_wire fr)
unfolding encode_ack_frame
encode_ack_frame-output outlen fr h =
    let a : ℕ = fr.largest_ack in
    let d : ℕ = fr.ack_delay in
    let f : ℕ = fr.first_ack_blklen in
    let n : ℕ = length fr.blks in
    let hn : IsVarint n = omega (arith, h.few) in
    let w : List ℕ = blocks_wire fr.blks in
    let head : ℕ =
      add64 (add64 (add64 (add64 1 (length (varint a))) (length (varint d))) (length (varint n)))
        (length (varint f)) in
    ground (
      arith,
      h.few,
      put_varint-eq a h.largest_fits,
      put_varint_len-eq a h.largest_fits,
      length-varint a h.largest_fits,
      put_varint-eq d h.delay_fits,
      put_varint_len-eq d h.delay_fits,
      length-varint d h.delay_fits,
      put_varint-eq n hn,
      put_varint_len-eq n hn,
      length-varint n hn,
      put_varint-eq f h.first_fits,
      put_varint_len-eq f h.first_fits,
      length-varint f h.first_fits,
      blocks_len-eq fr.blks head h.blks_fit,
      put_blocks-eq fr.blks h.blks_fit,
      length-blocks_wire fr.blks h.blks_fit,
      length-append (varint a) (varint d ++ (varint n ++ (varint f ++ w))),
      length-append (varint d) (varint n ++ (varint f ++ w)),
      length-append (varint n) (varint f ++ w),
      length-append (varint f) w,
    )
