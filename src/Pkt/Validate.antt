-- ===== src/Pkt/Validate.antt =====
-- `ngtcp2_pkt_validate_ack`: the block lengths of an ACK frame fit below its largest packet number.
use polygon.Base.{
  ℕ, ◌+◌, ◌^◌, ◌<◌, List, [], ◌∷◌, ◌≡◌, All, ltb, leb, if◌then◌else◌, Result, ok, err, ◌>>◌,
  fail_if, add64, sub64, ack_frame, arith,
}
use polygon.Conv.Varint.{IsVarint}
use polygon.Pkt.Frame.{Ack, AckBlk}
use polygon.Pkt.Frame.WireAck.{IsAckBlk}

-- The loop over the blocks, with what is left of `largest_ack`.
unfoldable pub validate_blks : ℕ → List AckBlk → Result (Unit {0})
validate_blks largest_ack [] = ok tt
validate_blks largest_ack (b ∷ blks) = do
  fail_if (ltb largest_ack (add64 b.gap 2)) ack_frame
  let after_gap = sub64 largest_ack (add64 b.gap 2)
  fail_if (ltb after_gap b.blklen) ack_frame
  validate_blks (sub64 after_gap b.blklen) blks

unfoldable pub validate_ack : Ack → Result (Unit {0})
unfolding validate_blks
validate_ack fr = do
  fail_if (ltb fr.largest_ack fr.first_ack_blklen) ack_frame
  validate_blks (sub64 fr.largest_ack fr.first_ack_blklen) fr.blks

-- How far the blocks reach down: each gap leaves out one packet more than it says, and a block holds
-- one more.
unfoldable pub span : List AckBlk → ℕ
span [] = 0
span (b ∷ blks) = b.gap + 2 + b.blklen + span blks

validate_blks-span :
    (blks : List AckBlk) (largest : ℕ)
    → largest < 2 ^ 62
    → All IsAckBlk blks
    → validate_blks largest blks ≡ (if leb (span blks) largest then ok tt else err ack_frame)
unfolding validate_blks span
validate_blks-span [] largest h all = ground arith
validate_blks-span (b ∷ blks) largest h (hb, all) = ground (
  arith,
  hb.gap_fits,
  hb.blklen_fits,
  validate_blks-span blks (sub64 (sub64 largest (add64 b.gap 2)) b.blklen),
)

-- On values that fit the wire, `ngtcp2_pkt_validate_ack` accepts an ACK frame exactly if its first block
-- and all gaps and blocks below reach down no further than packet number 0.
pub validate_ack-span :
    (fr : Ack)
    → IsVarint fr.largest_ack
    → IsVarint fr.first_ack_blklen
    → All IsAckBlk fr.blks
    → validate_ack fr
      ≡ (if leb (fr.first_ack_blklen + span fr.blks) fr.largest_ack then ok tt else err ack_frame)
unfolding validate_ack
validate_ack-span fr hl hf all =
    ground (arith, validate_blks-span fr.blks (sub64 fr.largest_ack fr.first_ack_blklen))
