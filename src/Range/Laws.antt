-- ===== src/Range/Laws.antt =====
-- What the operations of ngtcp2_range.c do to the offsets in a range.
use polygon.Base.{ℕ, ◌≤◌, not, ◌&&◌, ◌||◌, ◌≡◌, arith}
use polygon.Range.{Range, range_intersect, range_cut}
use polygon.Range.Gaps.{in_range}

-- An offset lies in the intersection exactly if it lies in both ranges.
pub in_range-range_intersect :
    (a b : Range) (x : ℕ) → in_range x (range_intersect a b) ≡ (in_range x a && in_range x b)
unfolding in_range range_intersect
in_range-range_intersect a b x = ground arith

pub in_range-range_cut :
    (a b : Range) (x : ℕ)
    → a.begin ≤ b.begin
    → b.begin ≤ b.end
    → b.end ≤ a.end
    → (in_range x (range_cut a b).0 || in_range x (range_cut a b).1)
      ≡ (in_range x a && not (in_range x b))
unfolding in_range range_cut
in_range-range_cut a b x h1 h2 h3 = ground arith
