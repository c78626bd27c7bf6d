-- ===== src/Gaptr/Push.antt =====
-- `ngtcp2_gaptr_push` takes a range out of the gaps.
use polygon.Base.{
  ℕ, ◌≤◌, ◌<◌, ◌^◌, true, not, ◌&&◌, List, [], ◌∷◌, ◌≡◌, refl, ◌∙◌, arith, ok, leb-cases, inl, inr,
  ◌⊎◌,
}
use polygon.Range.{
  Range, range_init, range_intersect, range_len, range_equal, range_cut, range_not_after,
}
use polygon.Range.Gaps.{in_range, in_gaps, IsGaps, in_gaps-below, IsGaps-lower}
use polygon.Gaptr.{Pushed, push_gaps, next_gap, split_gap, keep, gaptr_gap_new}

-- What a push leaves of the gaps `gaps`, from `low` on.
pub record TakesOut (low : ℕ) (q : Range) (gaps : List Range) (p : Pushed) : Type 0 where
  pub success : p.1 ≡ ok tt
  pub order : IsGaps low p.0
  pub exact : (x : ℕ) → in_gaps x p.0 ≡ (in_gaps x gaps && not (in_range x q))

-- The range that is pushed: not empty or at least not inverted.
abbrev pub IsRange : Range → Type 0
IsRange q = (q.begin ≤ q.end) × (q.end < 2 ^ 64)

TakesOut-lower :
    (low low' : ℕ) (q : Range) (gaps : List Range) (p : Pushed)
    → low' ≤ low
    → TakesOut low q gaps p
    → TakesOut low' q gaps p
TakesOut-lower low low' q gaps p le t = record {
  success = t.success;
  order = IsGaps-lower low low' p.0 le t.order;
  exact = t.exact;
}

-- A gap that the range does not meet stays.
next_gap-TakesOut :
    (low : ℕ) (q g : Range) (gaps : List Range) (p : Pushed)
    → (low ≤ g.begin) × (g.begin < g.end) × (g.end < 2 ^ 64) × IsGaps g.end gaps
    → q.begin ≤ q.end
    → (q.end ≤ q.begin) ⊎ (q.end ≤ g.begin) ⊎ (g.end ≤ q.begin)
    → TakesOut g.end q gaps p
    → TakesOut low q (g ∷ gaps) (next_gap q g gaps p)
next_gap-TakesOut low q g gaps p (a, b, c, hg) hq apart t =
    unfold next_gap range_not_after in
    elim (leb-cases q.end g.end) [
      | inl (le, e) ↦ rw e (record {
        success = refl;
        order = (a, b, c, hg);
        exact = λ x. unfold in_gaps in_range in ground (arith, in_gaps-below g.end x gaps hg);
      })
      | inr (gt, e) ↦ rw e (
          unfold keep in
          record {
            success = t.success;
            order = (a, b, c, t.order);
            exact = λ x. unfold in_gaps in_range in ground (arith, t.exact x);
          })
    ]

-- What the loop's tests come to in each case.
module _ (q g : Range) (gaps : List Range) (hg : g.begin < g.end) (small : g.end < 2 ^ 64) where
  pub push_gaps_apart :
      (q.end ≤ q.begin) ⊎ (q.end ≤ g.begin) ⊎ (g.end ≤ q.begin)
      → push_gaps true q (g ∷ gaps) ≡ next_gap q g gaps (push_gaps true q gaps)
  unfolding push_gaps range_intersect range_len
  push_gaps_apart h = ground arith

  pub push_gaps_covers :
      q.begin ≤ g.begin → g.end ≤ q.end → push_gaps true q (g ∷ gaps) ≡ push_gaps true q gaps
  unfolding push_gaps range_intersect range_len range_equal
  push_gaps_covers h1 h2 = ground arith

  pub push_gaps_inside :
      g.begin < q.begin
      → q.begin < q.end
      → q.end < g.end
      → push_gaps true q (g ∷ gaps)
        ≡ split_gap true q
            (range_init g.begin q.begin)
            (range_init q.end g.end)
            gaps
            (push_gaps true q gaps)
  unfolding push_gaps range_intersect range_len range_equal range_cut
  push_gaps_inside h1 h2 h3 = ground arith

  pub push_gaps_on_right :
      g.begin < q.begin
      → q.begin < g.end
      → g.end ≤ q.end
      → push_gaps true q (g ∷ gaps)
        ≡ next_gap q (range_init g.begin q.begin) gaps (push_gaps true q gaps)
  unfolding push_gaps range_intersect range_len range_equal range_cut
  push_gaps_on_right h1 h2 h3 = ground arith

  pub push_gaps_on_left :
      q.begin ≤ g.begin
      → g.begin < q.end
      → q.end < g.end
      → push_gaps true q (g ∷ gaps)
        ≡ next_gap q (range_init q.end g.end) gaps (push_gaps true q gaps)
  unfolding push_gaps range_intersect range_len range_equal range_cut
  push_gaps_on_left h1 h2 h3 = ground arith

pub data Place (q g : Range) : Type 0 where
  apart : (q.end ≤ q.begin) ⊎ (q.end ≤ g.begin) ⊎ (g.end ≤ q.begin) → Place q g
  covers : q.begin ≤ g.begin → g.end ≤ q.end → Place q g
  inside : g.begin < q.begin → q.begin < q.end → q.end < g.end → Place q g
  on_right : g.begin < q.begin → q.begin < g.end → g.end ≤ q.end → Place q g
  on_left : q.begin ≤ g.begin → g.begin < q.end → q.end < g.end → Place q g

pub place : (q g : Range) → Place q g
place q g = ground arith

-- Only the offsets outside the range matter to what is left.
TakesOut-same :
    (low : ℕ) (q : Range) (gaps gaps' : List Range) (p : Pushed)
    → ((x : ℕ) → (in_gaps x gaps && not (in_range x q)) ≡ (in_gaps x gaps' && not (in_range x q)))
    → TakesOut low q gaps p
    → TakesOut low q gaps' p
TakesOut-same low q gaps gaps' p same t = record {
  success = t.success;
  order = t.order;
  exact = λ x. t.exact x ∙ same x;
}

-- The three ways in which a part of the gap is left.
module _ (low : ℕ) (q g : Range) (gaps : List Range) (rest : Pushed) (hq64 : q.end < 2 ^ 64)
    (h1 : low ≤ g.begin) (h3 : g.end < 2 ^ 64) (hg : IsGaps g.end gaps)
    (t : TakesOut g.end q gaps rest) where
  cut_right :
      g.begin < q.begin
      → q.begin < g.end
      → g.end ≤ q.end
      → TakesOut low q (g ∷ gaps) (next_gap q (range_init g.begin q.begin) gaps rest)
  unfolding range_init
  cut_right a b c =
      let l : Range = range_init g.begin q.begin in
      TakesOut-same low q (l ∷ gaps) (g ∷ gaps) (next_gap q l gaps rest)
        (λ x. unfold in_gaps in_range in ground arith)
        (next_gap-TakesOut low q l gaps rest
          (h1, a, omega arith, IsGaps-lower g.end q.begin gaps (omega arith) hg) (omega arith)
          (inr (inr (omega arith))) (TakesOut-lower g.end q.begin q gaps rest (omega arith) t))

  cut_left :
      q.begin ≤ g.begin
      → g.begin < q.end
      → q.end < g.end
      → TakesOut low q (g ∷ gaps) (next_gap q (range_init q.end g.end) gaps rest)
  unfolding range_init
  cut_left a b c =
      let r : Range = range_init q.end g.end in
      TakesOut-same low q (r ∷ gaps) (g ∷ gaps) (next_gap q r gaps rest)
        (λ x. unfold in_gaps in_range in ground arith)
        (next_gap-TakesOut low q r gaps rest (omega arith, c, h3, hg) (omega arith)
          (inr (inl (omega arith))) t)

  cut_inside :
      g.begin < q.begin
      → q.begin < q.end
      → q.end < g.end
      → TakesOut low q
          (g ∷ gaps)
          (split_gap true q (range_init g.begin q.begin) (range_init q.end g.end) gaps rest)
  unfolding range_init split_gap gaptr_gap_new
  cut_inside a b c =
      let r : Range = range_init q.end g.end in
      let right : TakesOut q.end q (r ∷ gaps) (next_gap q r gaps rest) =
        next_gap-TakesOut q.end q r gaps rest (omega arith, c, h3, hg) (omega arith)
          (inr (inl (omega arith))) t in
      unfold keep in
      record {
        success = right.success;
        order = (
          h1,
          a,
          omega arith,
          IsGaps-lower q.end q.begin (next_gap q r gaps rest).0 (omega arith) right.order,
        );
        exact = λ x.
            unfold in_gaps in_range in ground (arith, right.exact x, in_gaps-below g.end x gaps hg);
      }

pub push_gaps-TakesOut :
    (low : ℕ) (q : Range) (gaps : List Range)
    → IsRange q
    → IsGaps low gaps
    → TakesOut low q gaps (push_gaps true q gaps)
push_gaps-TakesOut low q [] hq h =
    unfold push_gaps in record { success = refl; order = tt; exact = λ x. unfold in_gaps in refl }
push_gaps-TakesOut low q (g ∷ gaps) (hq, hq64) (h1, h2, h3, hg) =
    let rest : Pushed = push_gaps true q gaps in
    let t : TakesOut g.end q gaps rest = push_gaps-TakesOut g.end q gaps (hq, hq64) hg in
    elim (place q g) [
      | apart h ↦
          rw (push_gaps_apart q g gaps h2 h3 h)
            (next_gap-TakesOut low q g gaps rest (h1, h2, h3, hg) hq h t)
      | covers a b ↦ rw (push_gaps_covers q g gaps h2 h3 a b) (
          TakesOut-lower g.end low q (g ∷ gaps) rest (omega arith) (
            TakesOut-same g.end q gaps (g ∷ gaps) rest
              (λ x. unfold in_gaps in_range in ground arith) t))
      | inside a b c ↦
          rw (push_gaps_inside q g gaps h2 h3 a b c)
            (cut_inside low q g gaps rest hq64 h1 h3 hg t a b c)
      | on_right a b c ↦
          rw (push_gaps_on_right q g gaps h2 h3 a b c)
            (cut_right low q g gaps rest hq64 h1 h3 hg t a b c)
      | on_left a b c ↦
          rw (push_gaps_on_left q g gaps h2 h3 a b c)
            (cut_left low q g gaps rest hq64 h1 h3 hg t a b c)
    ]
