-- ===== src/Range.antt =====
-- Polygon/lib/ngtcp2_range.c: half-open ranges of offsets.
pub mod Gaps
pub mod Laws
use polygon.Base.{ℕ, Bool, ◌&&◌, ltb, leb, ◌==◌, if◌then◌else◌, min, max, sub64}

pub record Range : Type 0 where
  pub begin : ℕ
  pub end : ℕ

unfoldable pub range_init : ℕ → ℕ → Range
range_init begin end = record { begin = begin; end = end }

unfoldable pub range_intersect : Range → Range → Range
unfolding range_init
range_intersect a b =
    let begin = max a.begin b.begin in
    let end = min a.end b.end in if ltb begin end then range_init begin end else range_init 0 0

unfoldable pub range_len : Range → ℕ
range_len r = sub64 r.end r.begin

unfoldable pub range_equal : Range → Range → Bool
range_equal a b = a.begin == b.begin && a.end == b.end

-- The parts of `a` on the left and on the right of `b`.
unfoldable pub range_cut : Range → Range → Range × Range
unfolding range_init
range_cut a b = (range_init a.begin b.begin, range_init b.end a.end)

unfoldable pub range_not_after : Range → Range → Bool
range_not_after a b = leb a.end b.end
