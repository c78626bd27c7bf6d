-- ===== src/Rob/Front.antt =====
-- The front of a reorder buffer: `ngtcp2_rob_data_at` and `ngtcp2_rob_pop` hand out the stream in order.
use polygon.Base.{
  ℕ, ◌+◌, ◌-◌, ◌≤◌, ◌<◌, ◌^◌, true, List, [], ◌∷◌, ◌≡◌, refl, ◌∙◌, inl, inr, ◌⊎◌, arith, segment,
  ok, some, add64, min, segment-same, leb-cases, ltb-cases, sym, ap, lt→ltb, lt→leb_false, le→leb,
}
use polygon.Base.Gives.{Gives, gives}
use polygon.Range.{Range}
use polygon.Range.Gaps.{in_range, in_gaps, in_gaps-below}
use polygon.Rob.{Block, Rob, rob_data_at, rob_pop, rob_first_gap_offset}
use polygon.Rob.Blocks.{stored, stored-below, IsBlocks-lower}
use polygon.Rob.Stream.{IsRob}
use polygon.Rob.Deliver.{later_base}

-- The state after a piece has been handed out: the same gaps, and the stream from `base` on.
pub record Popped (s : ℕ → ℕ) (base : ℕ) (rob rob' : Rob) : Type 0 where
  pub state : IsRob s base rob'
  pub gaps : rob'.gaps ≡ rob.gaps

-- The next piece of the stream, and the state after it.
pub record Piece (s : ℕ → ℕ) (base : ℕ) (rob : Rob) : Type 0 where
  pub len : ℕ
  pub some_len : 0 < len
  pub before : base + len ≤ rob_first_gap_offset rob
  pub given : rob_data_at rob base ≡ ok (segment s base len)
  pub popped : Gives (Popped s (base + len) rob) (rob_pop rob base len)

some-injective : {A : Type 0} {x y : A} → some x ≡ some y → x ≡ y
some-injective e = ground (arith, e)

module _ (s : ℕ → ℕ) (base chunk : ℕ) (g : Range) (gaps : List Range) (b : Block)
    (blocks : List Block) where
  abbrev rob : Rob
  rob = record { gaps = g ∷ gaps; blocks = b ∷ blocks; chunk = chunk }

  -- The first block is the one that holds what comes next.
  front_holds :
      IsRob s base rob
      → base < g.begin
      → g.begin ≤ 2 ^ 62
      → (x : ℕ) → base ≤ x
      → x < g.begin
      → stored chunk x (b ∷ blocks) ≡ some (s x)
  unfolding in_gaps in_range
  front_holds v h big x lo hi =
      let (g1, g2, g3, hg) = v.gaps_order in
      v.held x lo (omega arith) (ground (arith, in_gaps-below g.end x gaps hg))

  front_covers : IsRob s base rob → base < g.begin → g.begin ≤ 2 ^ 62 → b.offset ≤ base
  unfolding stored
  front_covers v h big =
      let (b1, b2, b3, b4, hb) = v.blocks_order in
      let it = front_holds v h big base (omega arith) h in
      ground (arith, it, stored-below chunk base (b.offset + chunk) base blocks hb)

  -- How much of the stream the first block gives.
  abbrev front : ℕ
  front = min g.begin (b.offset + chunk) - base

  front_bytes :
      IsRob s base rob
      → base < g.begin
      → g.begin ≤ 2 ^ 62
      → segment b.bytes (base - b.offset) front ≡ segment s base front
  unfolding stored
  front_bytes v h big =
      let from = front_covers v h big in
      segment-same b.bytes s (base - b.offset) base front (λ i lt.
        let it = front_holds v h big (base + i) (omega arith) (omega arith) in
        let there : base + i - b.offset ≡ base - b.offset + i = omega arith in
        let here : stored chunk (base + i) (b ∷ blocks) ≡ some (b.bytes (base + i - b.offset)) =
          ground arith in
        rw there at (some-injective (sym here ∙ it)))

  dropped_first :
      (x : ℕ)
      → b.offset + chunk ≤ x
      → stored chunk x (b ∷ blocks) ≡ some (s x)
      → stored chunk x blocks ≡ some (s x)
  unfolding stored
  dropped_first x h it = ground (arith, it)

  front-Piece : IsRob s base rob → base < g.begin → g.begin ≤ 2 ^ 62 → Piece s base rob
  unfolding rob_data_at rob_pop rob_first_gap_offset
  front-Piece v h big =
      let (b1, b2, b3, b4, hb) = v.blocks_order in
      let (g1, g2, g3, hg) = v.gaps_order in
      let small = v.small in
      let from = front_covers v h big in
      let wide : add64 b.offset chunk ≡ b.offset + chunk = omega arith in
      let after : add64 base front ≡ base + front = omega arith in
      record {
        len = front;
        some_len = omega arith;
        before = omega arith;
        given =
            rw
              (
                lt→leb_false g.begin base h,
                le→leb b.offset base from,
                wide,
                lt→ltb base (b.offset + chunk) b3,
              )
              (ap ok (front_bytes v h big));
        popped =
            rw (after, wide)
              (elim (ltb-cases (base + front) (b.offset + chunk)) [
                | inl (lt, e) ↦ rw e (
                    gives (record {
                      state = record {
                        pos = v.pos;
                        small = small;
                        gaps_order = (omega arith, g2, g3, hg);
                        blocks_order = (
                          b1,
                          b2,
                          lt,
                          b4,
                          later_base chunk base (base + front) (b.offset + chunk) blocks v.pos
                              (omega arith) hb,
                        );
                        held = λ x lo. v.held x (omega arith);
                        endless = v.endless;
                      };
                      gaps = refl;
                    }))
                | inr (all, e) ↦ rw e (
                    gives (record {
                      state = record {
                        pos = v.pos;
                        small = small;
                        gaps_order = (omega arith, g2, g3, hg);
                        blocks_order =
                            IsBlocks-lower chunk (base + front) (b.offset + chunk) 0 blocks
                              (omega arith)
                              (later_base chunk base (base + front) (b.offset + chunk) blocks v.pos
                                (omega arith) hb);
                        held = λ x lo hi out.
                            dropped_first x (omega arith) (v.held x (omega arith) hi out);
                        endless = v.endless;
                      };
                      gaps = refl;
                    }))
              ]);
      }

first_gap_small :
    (s : ℕ → ℕ) (base : ℕ) (rob : Rob) (g : Range) (gaps : List Range)
    → IsRob s base rob
    → rob.gaps ≡ g ∷ gaps
    → g.begin ≤ 2 ^ 62
first_gap_small s base rob g gaps v e =
    let (g1, g2, g3, hg) = rw e at v.gaps_order in
    let far : in_gaps (2 ^ 62) (g ∷ gaps) ≡ true =
      rw e at (v.endless (2 ^ 62) (omega arith) (omega arith)) in
    ground (arith, far, in_gaps-below g.begin (2 ^ 62) (g ∷ gaps) (omega arith, g2, g3, hg))

-- A piece of the stream, or nothing if the first gap is there.
abbrev pub Front : (ℕ → ℕ) → ℕ → Rob → Type 0
Front s base rob =
    Piece s base rob ⊎ ((rob_data_at rob base ≡ ok []) × (rob_first_gap_offset rob ≡ base))

rob_data_at-Front_parts :
    (s : ℕ → ℕ) (base chunk : ℕ) (gaps : List Range) (blocks : List Block)
    → IsRob s base (record { gaps = gaps; blocks = blocks; chunk = chunk })
    → Front s base (record { gaps = gaps; blocks = blocks; chunk = chunk })
unfolding rob_data_at rob_first_gap_offset in_gaps stored in_range
rob_data_at-Front_parts s base chunk [] blocks v =
    absurd (let far = v.endless (2 ^ 62) (omega arith) (omega arith) in ground (arith, far))
rob_data_at-Front_parts s base chunk (g ∷ gaps) [] v =
    let small =
      first_gap_small s base (record { gaps = g ∷ gaps; blocks = []; chunk = chunk }) g gaps v
        refl in
    let (g1, g2, g3, hg) = v.gaps_order in
    elim (leb-cases g.begin base) [
      | inl (le, e) ↦ inr (rw e refl, omega arith)
      | inr (lt, _) ↦ absurd (
          let it =
            v.held base (omega arith) (omega arith)
              (ground (arith, in_gaps-below g.end base gaps hg)) in
          ground (arith, it))
    ]
rob_data_at-Front_parts s base chunk (g ∷ gaps) (b ∷ blocks) v =
    let small =
      first_gap_small s base (record { gaps = g ∷ gaps; blocks = b ∷ blocks; chunk = chunk }) g gaps
        v refl in
    let (g1, g2, g3, hg) = v.gaps_order in
    elim (leb-cases g.begin base) [
      | inl (le, e) ↦ inr (rw e refl, omega arith)
      | inr (lt, _) ↦ inl (front-Piece s base chunk g gaps b blocks v lt small)
    ]

-- The front of a buffer in good order: ngtcp2_rob_data_at gives the bytes of the stream that come next, up to the
-- first gap at most, and ngtcp2_rob_pop takes them out; or it gives nothing, and then the first gap is there.
pub rob_data_at-Front : (s : ℕ → ℕ) (base : ℕ) (rob : Rob) → IsRob s base rob → Front s base rob
rob_data_at-Front s base rob v = rob_data_at-Front_parts s base rob.chunk rob.gaps rob.blocks v
