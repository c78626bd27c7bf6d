-- ===== src/Gaptr/Received.antt =====
-- What a gap tracker knows after any sequence of pushes.
use polygon.Base.{
  ℕ, ◌+◌, ◌-◌, ◌≤◌, ◌<◌, ◌^◌, Bool, false, true, not, ◌&&◌, ◌||◌, List, [], ◌∷◌, All, ◌≡◌, refl,
  ◌∙◌, arith, Result, ok, ◌>>=◌, add64,
}
use polygon.Range.{Range, range_init}
use polygon.Range.Gaps.{in_range, in_gaps, IsGaps, in_gaps-below}
use polygon.Gaptr.{gaptr_init, gaptr_push, gaptr_first_gap_offset, gaptr_gap_new, Pushed}
use polygon.Gaptr.Push.{TakesOut, push_gaps-TakesOut}

abbrev pushed : Pushed → Result (List Range)
pushed (gaps, rv) = do _ ← rv; ok gaps

-- The pushes of `(offset, datalen)` pairs, one after the other, with memory at hand.
unfoldable pub push_all : List (ℕ × ℕ) → List Range → Result (List Range)
push_all [] gaps = ok gaps
push_all ((offset, datalen) ∷ pieces) gaps = do
  left ← pushed (gaptr_push true offset datalen gaps)
  push_all pieces left

-- Whether an offset lies in one of the pieces of data.
unfoldable pub received : ℕ → List (ℕ × ℕ) → Bool
unfolding in_range
received x [] = false
received x ((offset, datalen) ∷ pieces) =
    in_range x (range_init offset (offset + datalen)) || received x pieces

-- The pieces end below `UINT64_MAX`.
abbrev pub IsPiece : ℕ × ℕ → Type 0
IsPiece (offset, datalen) = offset + datalen < 2 ^ 64

-- The gaps that the pushes leave: they succeed, and take out what they push.
record Tracks (pieces : List (ℕ × ℕ)) (before : List Range) : Type 0 where
  after : List Range
  ran : push_all pieces before ≡ ok after
  order : IsGaps 0 after
  exact : (x : ℕ) → in_gaps x after ≡ (in_gaps x before && not (received x pieces))

Tracks-push :
    (offset datalen : ℕ) (pieces : List (ℕ × ℕ)) (gaps : List Range)
    → TakesOut 0 (range_init offset (offset + datalen)) gaps (gaptr_push true offset datalen gaps)
    → Tracks pieces (gaptr_push true offset datalen gaps).0
    → Tracks ((offset, datalen) ∷ pieces) gaps
unfolding push_all received
Tracks-push offset datalen pieces gaps t r = record {
  after = r.after;
  ran = ground (arith, t.success, r.ran);
  order = r.order;
  exact = λ x. ground (arith, r.exact x, t.exact x);
}

gaptr_push-TakesOut :
    (offset datalen : ℕ) (gaps : List Range)
    → IsPiece (offset, datalen)
    → IsGaps 0 gaps
    → TakesOut 0 (range_init offset (offset + datalen)) gaps (gaptr_push true offset datalen gaps)
unfolding gaptr_push range_init
gaptr_push-TakesOut offset datalen gaps h hg =
    let same : add64 offset datalen ≡ offset + datalen = omega arith in
    rw same (
      push_gaps-TakesOut 0 (range_init offset (offset + datalen)) gaps (omega arith, omega arith)
        hg)

push_all-Tracks :
    (pieces : List (ℕ × ℕ)) (gaps : List Range)
    → All IsPiece pieces
    → IsGaps 0 gaps
    → Tracks pieces gaps
unfolding push_all received
push_all-Tracks [] gaps hp hg = record {
  after = gaps;
  ran = refl;
  order = hg;
  exact = λ x. ground arith;
}
push_all-Tracks ((offset, datalen) ∷ pieces) gaps (h, hp) hg =
    let t = gaptr_push-TakesOut offset datalen gaps h hg in
    Tracks-push offset datalen pieces gaps t (push_all-Tracks pieces _ hp t.order)

-- What a gap tracker promises after some pieces of data have come in.
pub record Tracked (pieces : List (ℕ × ℕ)) : Type 0 where
  gaps : List Range
  ran : (do start ← gaptr_init true; push_all pieces start) ≡ ok gaps
  exact : (x : ℕ) → x < 2 ^ 64 - 1 → in_gaps x gaps ≡ not (received x pieces)
  before_first : (x : ℕ) → x < gaptr_first_gap_offset gaps → received x pieces ≡ true
  first :
      gaptr_first_gap_offset gaps < 2 ^ 64 - 1
      → received (gaptr_first_gap_offset gaps) pieces ≡ false

first_gap_offset-below :
    (x : ℕ) (gaps : List Range)
    → IsGaps 0 gaps
    → x < gaptr_first_gap_offset gaps
    → in_gaps x gaps ≡ false
unfolding in_gaps in_range gaptr_first_gap_offset
first_gap_offset-below x [] hg h = refl
first_gap_offset-below x (g ∷ gaps) (a, b, c, hg) h = ground (arith, in_gaps-below g.end x gaps hg)

first_gap_offset-in_gaps :
    (gaps : List Range)
    → IsGaps 0 gaps
    → gaptr_first_gap_offset gaps < 2 ^ 64 - 1
    → in_gaps (gaptr_first_gap_offset gaps) gaps ≡ true
unfolding in_gaps in_range gaptr_first_gap_offset
first_gap_offset-in_gaps [] hg h = absurd (omega arith)
first_gap_offset-in_gaps (g ∷ gaps) (a, b, c, hg) h = ground arith

first_gap_offset-small :
    (gaps : List Range) → IsGaps 0 gaps → gaptr_first_gap_offset gaps ≤ 2 ^ 64 - 1
unfolding gaptr_first_gap_offset
first_gap_offset-small [] hg = omega arith
first_gap_offset-small (g ∷ gaps) (a, b, c, hg) = omega arith

-- Whatever pieces of data come in, in whatever order and however they overlap, the gap tracker that starts
-- empty takes all of them; an offset then lies in a gap exactly if no piece holds it, all offsets before
-- the first gap have been received, and the first gap has not.
pub gaptr-Tracked : (pieces : List (ℕ × ℕ)) → All IsPiece pieces → Tracked pieces
gaptr-Tracked pieces h =
    let start : List Range = range_init 0 (2 ^ 64 - 1) ∷ [] in
    let r : Tracks pieces start =
      push_all-Tracks pieces start h
        (unfold range_init in (omega arith, omega arith, omega arith, tt)) in
    let exact : (x : ℕ) → x < 2 ^ 64 - 1 → in_gaps x r.after ≡ not (received x pieces) =
      λ x lt. r.exact x ∙ unfold in_gaps in_range range_init in ground arith in
    record {
      gaps = r.after;
      ran = unfold gaptr_init gaptr_gap_new in r.ran;
      exact = exact;
      before_first = λ x lt. ground (
        arith,
        exact x,
        first_gap_offset-below x r.after r.order lt,
        first_gap_offset-small r.after r.order,
      );
      first = λ lt. ground (
        arith,
        exact (gaptr_first_gap_offset r.after) lt,
        first_gap_offset-in_gaps r.after r.order lt,
      );
    }
