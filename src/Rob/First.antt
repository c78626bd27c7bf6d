-- ===== src/Rob/First.antt =====
-- The first gap of a reorder buffer in good order.
use polygon.Base.{ℕ, ◌≤◌, ◌^◌, true, List, [], ◌∷◌, ◌≡◌, refl, arith}
use polygon.Range.{Range}
use polygon.Range.Gaps.{in_range, in_gaps, IsGaps, in_gaps-below}
use polygon.Rob.{Rob, rob_first_gap_offset}
use polygon.Rob.Stream.{IsRob}

pub record First (base : ℕ) (rob : Rob) : Type 0 where
  pub from : base ≤ rob_first_gap_offset rob
  pub small : rob_first_gap_offset rob ≤ 2 ^ 62
  pub gap : in_gaps (rob_first_gap_offset rob) rob.gaps ≡ true
  pub least : (x : ℕ) → in_gaps x rob.gaps ≡ true → rob_first_gap_offset rob ≤ x

gaps-First :
    (base : ℕ) (rob : Rob) (gaps : List Range)
    → rob.gaps ≡ gaps
    → IsGaps base gaps
    → in_gaps (2 ^ 62) gaps ≡ true
    → First base rob
unfolding rob_first_gap_offset in_gaps in_range
gaps-First base rob [] e h far = absurd (ground arith)
gaps-First base rob (g ∷ gaps) e (h1, h2, h3, hg) far =
    let least : (x : ℕ) → in_gaps x (g ∷ gaps) ≡ true → g.begin ≤ x = λ x here.
      ground (arith, here, in_gaps-below g.begin x (g ∷ gaps) (omega arith, h2, h3, hg)) in
    record {
      from = rw e h1;
      small = rw e (least (2 ^ 62) far);
      gap = rw e (ground arith);
      least = rw e least;
    }

pub IsRob-First : (s : ℕ → ℕ) (base : ℕ) (rob : Rob) → IsRob s base rob → First base rob
IsRob-First s base rob v =
    gaps-First base rob rob.gaps refl v.gaps_order (v.endless (2 ^ 62) (omega arith) (omega arith))
