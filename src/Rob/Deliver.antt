-- ===== src/Rob/Deliver.antt =====
-- What a reorder buffer hands out, and what it forgets.
use polygon.Base.{
  ℕ, ◌+◌, ◌≤◌, ◌<◌, ◌^◌, ◌&&◌, List, [], ◌∷◌, leb, ltb, ◌≡◌, refl, ◌∙◌, inl, inr, arith, add64,
  leb-cases, ltb-cases, if◌then◌else◌, lt→leb_false,
}
use polygon.Range.{Range}
use polygon.Range.Gaps.{in_range, in_gaps, IsGaps, in_gaps-below}
use polygon.Rob.{Block, Rob, rob_remove_prefix, remove_gaps, remove_blocks}
use polygon.Rob.Blocks.{stored, IsBlocks, IsBlocks-lower}
use polygon.Rob.Stream.{IsRob}

-- The gaps below an offset are gone, and no others.
record Cuts (offset : ℕ) (gaps gaps' : List Range) : Type 0 where
  order : IsGaps offset gaps'
  exact : (x : ℕ) → in_gaps x gaps' ≡ (in_gaps x gaps && leb offset x)

remove_gaps-Cuts :
    (offset low : ℕ) (gaps : List Range)
    → IsGaps low gaps
    → Cuts offset gaps (remove_gaps offset gaps)
unfolding remove_gaps in_gaps in_range
remove_gaps-Cuts offset low [] h = record { order = tt; exact = λ x. refl }
remove_gaps-Cuts offset low (g ∷ gaps) (h1, h2, h3, h) =
    let t = remove_gaps-Cuts offset g.end gaps h in
    elim (leb-cases offset g.begin) [
      | inl (le, e) ↦ rw e (record {
        order = (le, h2, h3, h);
        exact = λ x. ground (arith, in_gaps-below g.end x gaps h);
      })
      | inr (gt, e) ↦ rw e (elim (ltb-cases offset g.end) [
        | inl (lt, e') ↦ rw e' (record {
          order = (omega arith, lt, h3, h);
          exact = λ x. ground (arith, in_gaps-below g.end x gaps h);
        })
        | inr (past, e') ↦ rw e' (record {
          order = t.order;
          exact = λ x. t.exact x ∙ ground (arith, in_gaps-below g.end x gaps h);
        })
      ])
    ]

-- What the blocks hold from an offset on is kept.
record Forgets (chunk offset low : ℕ) (blocks blocks' : List Block) : Type 0 where
  order : IsBlocks chunk offset low blocks'
  exact : (x : ℕ) → offset ≤ x → stored chunk x blocks' ≡ stored chunk x blocks

pub later_base :
    (chunk base offset low : ℕ) (blocks : List Block)
    → 0 < chunk
    → offset ≤ low
    → IsBlocks chunk base low blocks
    → IsBlocks chunk offset low blocks
later_base chunk base offset low [] pos le h = tt
later_base chunk base offset low (b ∷ blocks) pos le (h1, h2, h3, h4, h) = (
  h1,
  h2,
  omega arith,
  h4,
  later_base chunk base offset (b.offset + chunk) blocks pos (omega arith) h,
)

remove_blocks-Forgets :
    (chunk base offset low : ℕ) (blocks : List Block)
    → 0 < chunk
    → IsBlocks chunk base low blocks
    → Forgets chunk offset low blocks (remove_blocks chunk offset blocks)
unfolding remove_blocks stored
remove_blocks-Forgets chunk base offset low [] pos h = record { order = tt; exact = λ x a. refl }
remove_blocks-Forgets chunk base offset low (b ∷ blocks) pos (h1, h2, h3, h4, h) =
    let t = remove_blocks-Forgets chunk base offset (b.offset + chunk) blocks pos h in
    let wide : add64 b.offset chunk ≡ b.offset + chunk = omega arith in
    rw wide (elim (ltb-cases offset (b.offset + chunk)) [
      | inl (lt, e) ↦
          let stays : (if leb offset b.offset
                then b ∷ blocks
                else if ltb offset (b.offset + chunk)
                then b ∷ blocks
                else remove_blocks chunk offset blocks)
              ≡ b ∷ blocks =
            ground arith in
          rw stays (record {
            order = (
              h1,
              h2,
              lt,
              h4,
              later_base chunk base offset (b.offset + chunk) blocks pos (omega arith) h,
            );
            exact = λ x a. refl;
          })
      | inr (ge, e) ↦
          rw (lt→leb_false offset b.offset (omega arith), e)
            (record {
              order =
                  IsBlocks-lower chunk offset (b.offset + chunk) low
                    (remove_blocks chunk offset blocks) (omega arith) t.order;
              exact = λ x a. t.exact x a ∙ ground arith;
            })
    ])

-- ngtcp2_rob_remove_prefix leaves a buffer in good order that has no gaps below the offset and is the same from
-- there on.
pub rob_remove_prefix-IsRob :
    (s : ℕ → ℕ) (base offset : ℕ) (rob : Rob)
    → IsRob s base rob
    → base ≤ offset
    → offset ≤ 2 ^ 62
    → IsRob s offset (rob_remove_prefix rob offset)
      × ((x : ℕ)
          → in_gaps x (rob_remove_prefix rob offset).gaps ≡ (in_gaps x rob.gaps && leb offset x))
unfolding rob_remove_prefix
rob_remove_prefix-IsRob s base offset rob v h1 h2 =
    let c = remove_gaps-Cuts offset base rob.gaps v.gaps_order in
    let f = remove_blocks-Forgets rob.chunk base offset 0 rob.blocks v.pos v.blocks_order in
    (
      record {
        pos = v.pos;
        small = v.small;
        gaps_order = c.order;
        blocks_order = f.order;
        held = λ x lo hi out.
            f.exact x lo ∙ v.held x (omega arith) hi (ground (arith, c.exact x, out));
        endless = λ x lo hi. c.exact x ∙ ground (arith, v.endless x lo hi);
      },
      c.exact,
    )
