-- ===== src/Acktr/Ack.antt =====
-- The entries that an ACK frame of this side settles once the peer has it, as `acktr_on_ack` of
-- ngtcp2_acktr.c removes them.
use polygon.Base.{
  ℕ, ◌-◌, Bool, false, ◌||◌, ◌&&◌, List, [], ◌∷◌, ◌++◌, ltb, leb, if◌then◌else◌, sub64,
}
use polygon.Pkt.Frame.{Ack, AckBlk}
use polygon.Acktr.{AcktrEntry}

-- The entries above `largest_ack`, which stay, and those from there on.
unfoldable pub skip_above : ℕ → List AcktrEntry → List AcktrEntry × List AcktrEntry
skip_above largest_ack [] = ([], [])
skip_above largest_ack (e ∷ es) =
    let (kept, rest) = skip_above largest_ack es in
    if ltb largest_ack e.pkt_num then (e ∷ kept, rest) else ([], e ∷ es)

-- The removal of the entries of the first block.
unfoldable pub remove_first : ℕ → ℕ → List AcktrEntry → List AcktrEntry
remove_first min_ack largest_ack [] = []
remove_first min_ack largest_ack (e ∷ es) =
    let rest = remove_first min_ack largest_ack es in
    if leb min_ack e.pkt_num && leb e.pkt_num largest_ack then rest else e ∷ es

-- The loop over the entries for one block: those that it passes over, and those from the end of the block on.
unfoldable pub walk_block : ℕ → ℕ → List AcktrEntry → List AcktrEntry × List AcktrEntry
walk_block min_ack largest_ack [] = ([], [])
walk_block min_ack largest_ack (e ∷ es) =
    let (kept, rest) = walk_block min_ack largest_ack es in
    if ltb largest_ack e.pkt_num
    then (e ∷ kept, rest)
    else if ltb e.pkt_num min_ack
    then ([], e ∷ es)
    else (kept, rest)

unfoldable pub remove_blocks : ℕ → List AckBlk → List AcktrEntry → List AcktrEntry
unfolding walk_block
remove_blocks min_ack [] es = es
remove_blocks min_ack (b ∷ blks) es =
    let largest = sub64 (sub64 min_ack b.gap) 2 in
    let least = sub64 largest b.blklen in
    let (kept, rest) = walk_block least largest es in kept ++ remove_blocks least blks rest

unfoldable pub remove_acked : Ack → List AcktrEntry → List AcktrEntry
unfolding skip_above remove_first remove_blocks
remove_acked fr es =
    let (kept, rest) = skip_above fr.largest_ack es in
    let min_ack = sub64 fr.largest_ack fr.first_ack_blklen in
    kept ++ remove_blocks min_ack fr.blks (remove_first min_ack fr.largest_ack rest)

-- Whether the blocks below `min_ack` acknowledge a packet number.
unfoldable pub in_blocks : ℕ → ℕ → List AckBlk → Bool
in_blocks x min_ack [] = false
in_blocks x min_ack (b ∷ blks) =
    let largest = min_ack - b.gap - 2 in
    let least = largest - b.blklen in leb least x && leb x largest || in_blocks x least blks

unfoldable pub acknowledges : ℕ → Ack → Bool
unfolding in_blocks
acknowledges x fr =
    let min_ack = fr.largest_ack - fr.first_ack_blklen in
    leb min_ack x && leb x fr.largest_ack || in_blocks x min_ack fr.blks
