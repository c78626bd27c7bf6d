-- ===== src/Acktr/AckExact.antt =====
-- An ACK frame that the peer has received settles exactly the entries that it acknowledges.
use polygon.Base.{
  ℕ, suc, ◌+◌, ◌-◌, ◌^◌, ◌≤◌, ◌<◌, true, false, ◌||◌, ◌&&◌, not, List, [], ◌∷◌, ◌++◌, leb, sub64,
  ◌≡◌, refl, arith, All, ltb-cases, leb-cases, ok, inl, inr,
}
use polygon.Pkt.Frame.{Ack, AckBlk}
use polygon.Pkt.Frame.WireAck.{IsAckBlk}
use polygon.Pkt.Validate.{span, validate_ack, validate_ack-span}
use polygon.Acktr.{AcktrEntry}
use polygon.Acktr.Add.{IsDescending, holds, holds-above}
use polygon.Acktr.Ack.{
  skip_above, remove_first, walk_block, remove_blocks, remove_acked, in_blocks, acknowledges,
}

holds-append :
    (x : ℕ) (es es' : List AcktrEntry) → holds x (es ++ es') ≡ (holds x es || holds x es')
unfolding holds
holds-append x [] es' = refl
holds-append x (e ∷ es) es' = ground (arith, holds-append x es es')

in_blocks-below :
    (x min_ack : ℕ) (blks : List AckBlk)
    → span blks ≤ min_ack
    → min_ack ≤ x
    → in_blocks x min_ack blks ≡ false
unfolding in_blocks span
in_blocks-below x min_ack [] fits h = refl
in_blocks-below x min_ack (b ∷ blks) fits h =
    ground
      (arith, in_blocks-below x (min_ack - b.gap - 2 - b.blklen) blks (omega arith) (omega arith))

-- What the walk over one block leaves.
record Walked (bound least largest : ℕ) (es kept rest : List AcktrEntry) : Type 0 where
  below : IsDescending least rest
  above : (x : ℕ) → x ≤ largest → holds x kept ≡ false
  exact :
      (x : ℕ) → (holds x kept || holds x rest) ≡ (holds x es && not (leb least x && leb x largest))

walk_block-Walked :
    (bound least largest : ℕ) (es : List AcktrEntry)
    → least ≤ suc largest
    → IsDescending bound es
    → Walked bound least largest es (walk_block least largest es).0 (walk_block least largest es).1
unfolding walk_block holds
walk_block-Walked bound least largest [] h d = record {
  below = tt;
  above = λ x h. refl;
  exact = λ x. refl;
}
walk_block-Walked bound least largest (e ∷ es) h (lt, d) =
    let w = walk_block-Walked e.pkt_num least largest es h d in
    elim (ltb-cases largest e.pkt_num) [
      | inl (over, t) ↦ rw t (record {
        below = w.below;
        above = λ x le. ground (arith, w.above x le);
        exact = λ x. ground (arith, w.exact x);
      })
      | inr (not_over, t) ↦ elim (ltb-cases e.pkt_num least) [
        | inl (under, t') ↦
            rw (t, t')
              (record {
                below = (under, d);
                above = λ x le. refl;
                exact = λ x. ground (arith, holds-above e.pkt_num es x d);
              })
        | inr (not_under, t') ↦
            rw (t, t')
              (record { below = w.below; above = w.above; exact = λ x. ground (arith, w.exact x) })
      ]
    ]

remove_blocks-exact :
    (min_ack : ℕ) (blks : List AckBlk) (es : List AcktrEntry) (x : ℕ)
    → min_ack < 2 ^ 62
    → span blks ≤ min_ack
    → IsDescending min_ack es
    → holds x (remove_blocks min_ack blks es) ≡ (holds x es && not (in_blocks x min_ack blks))
unfolding remove_blocks in_blocks span
remove_blocks-exact min_ack [] es x small fits d = ground arith
remove_blocks-exact min_ack (b ∷ blks) es x small fits d =
    let largest = min_ack - b.gap - 2 in
    let least = largest - b.blklen in
    let gap_eq : sub64 (sub64 min_ack b.gap) 2 ≡ largest = omega arith in
    let blk_eq : sub64 largest b.blklen ≡ least = omega arith in
    let w = walk_block-Walked min_ack least largest es (omega arith) d in
    let kept = (walk_block least largest es).0 in
    let rest = (walk_block least largest es).1 in
    rw (gap_eq, blk_eq)
      (ground (
        arith,
        holds-append x kept (remove_blocks least blks rest),
        remove_blocks-exact least blks rest x (omega arith) (omega arith) w.below,
        w.exact x,
        w.above x,
        in_blocks-below x least blks,
      ))

-- What is passed over above the frame, and what is left to look at.
record Skipped (largest : ℕ) (es kept rest : List AcktrEntry) : Type 0 where
  below : IsDescending (suc largest) rest
  above : (x : ℕ) → x ≤ largest → holds x kept ≡ false
  exact : (x : ℕ) → (holds x kept || holds x rest) ≡ holds x es

skip_above-Skipped :
    (bound largest : ℕ) (es : List AcktrEntry)
    → IsDescending bound es
    → Skipped largest es (skip_above largest es).0 (skip_above largest es).1
unfolding skip_above holds
skip_above-Skipped bound largest [] d = record {
  below = tt;
  above = λ x h. refl;
  exact = λ x. refl;
}
skip_above-Skipped bound largest (e ∷ es) (lt, d) =
    let w = skip_above-Skipped e.pkt_num largest es d in
    elim (ltb-cases largest e.pkt_num) [
      | inl (over, t) ↦ rw t (record {
        below = w.below;
        above = λ x le. ground (arith, w.above x le);
        exact = λ x. ground (arith, w.exact x);
      })
      | inr (not_over, t) ↦
          rw t (record { below = (omega arith, d); above = λ x le. refl; exact = λ x. refl })
    ]

-- What is left of the entries from the first block on.
record Removed (least largest : ℕ) (es es' : List AcktrEntry) : Type 0 where
  below : IsDescending least es'
  exact : (x : ℕ) → holds x es' ≡ (holds x es && not (leb least x && leb x largest))

remove_first-Removed :
    (bound least largest : ℕ) (es : List AcktrEntry)
    → bound ≤ suc largest
    → IsDescending bound es
    → Removed least largest es (remove_first least largest es)
unfolding remove_first holds
remove_first-Removed bound least largest [] h d = record { below = tt; exact = λ x. refl }
remove_first-Removed bound least largest (e ∷ es) h (lt, d) =
    let r = remove_first-Removed e.pkt_num least largest es (omega arith) d in
    let in_frame : leb e.pkt_num largest ≡ true = ground arith in
    elim (leb-cases least e.pkt_num) [
      | inl (inside, t) ↦
          rw (t, in_frame) (record { below = r.below; exact = λ x. ground (arith, r.exact x) })
      | inr (under, t) ↦
          rw t (record {
            below = (under, d);
            exact = λ x. ground (arith, holds-above e.pkt_num es x d);
          })
    ]

-- For an ACK frame that `ngtcp2_pkt_validate_ack` accepts, the walk of `acktr_on_ack` over the entries
-- removes exactly those whose packet numbers the frame acknowledges.
pub remove_acked-exact :
    (fr : Ack) (es : List AcktrEntry) (x : ℕ)
    → fr.largest_ack < 2 ^ 62
    → fr.first_ack_blklen < 2 ^ 62
    → All IsAckBlk fr.blks
    → validate_ack fr ≡ ok tt
    → IsDescending (2 ^ 64) es
    → holds x (remove_acked fr es) ≡ (holds x es && not (acknowledges x fr))
unfolding remove_acked acknowledges
remove_acked-exact fr es x small first_fits blks_fit valid d =
    let largest = fr.largest_ack in
    let least = largest - fr.first_ack_blklen in
    let fits : fr.first_ack_blklen + span fr.blks ≤ largest =
      ground (arith, validate_ack-span fr small first_fits blks_fit) in
    let least_eq : sub64 largest fr.first_ack_blklen ≡ least = omega arith in
    let s = skip_above-Skipped (2 ^ 64) largest es d in
    let kept = (skip_above largest es).0 in
    let rest = (skip_above largest es).1 in
    let r = remove_first-Removed (suc largest) least largest rest (omega arith) s.below in
    let left = remove_first least largest rest in
    rw least_eq (
      ground (
        arith,
        holds-append x kept (remove_blocks least fr.blks left),
        remove_blocks-exact least fr.blks left x (omega arith) (omega arith) r.below,
        r.exact x,
        s.exact x,
        s.above x,
        in_blocks-below x least fr.blks,
      ))
