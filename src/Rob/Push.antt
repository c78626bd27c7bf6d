-- ===== src/Rob/Push.antt =====
-- `ngtcp2_rob_push`: the gaps change as in the gap tracker, and what comes in is stored.
use polygon.Base.{
  ℕ, ◌+◌, ◌-◌, ◌≤◌, ◌<◌, ◌^◌, true, false, List, [], ◌∷◌, take, drop, ◌≡◌, refl, ◌∙◌, sym, ◌⊎◌, inl,
  inr, ap, arith, segment, ok, take-segment, drop-segment, leb-cases, some, leb, lt→leb_false,
}
use polygon.Range.{Range, range_init, range_not_after}
use polygon.Range.Gaps.{in_range, in_gaps, IsGaps, in_gaps-below, IsGaps-lower}
use polygon.Gaptr.{push_gaps, gaptr_gap_new}
use polygon.Gaptr
use polygon.Gaptr.Push.{
  push_gaps_apart, push_gaps_covers, push_gaps_inside, push_gaps_on_right, push_gaps_on_left, place,
  apart, covers, inside, on_right, on_left,
}
use polygon.Rob.{
  Memory, Block, Written, Pushed, rob_write_data, push_loop, next_gap, after_write, after_gap,
  split_gap, keep_gap, rob_gap_new,
}
use polygon.Rob.Blocks.{stored, IsBlocks}
use polygon.Rob.Fill.{HasMemory, Stores}
use polygon.Rob.Write.{rob_write_data-Stores}
use polygon.Rob.Places.{
  push_loop_apart, push_loop_covers, push_loop_inside, push_loop_on_right, push_loop_on_left, write,
}

-- What a push of the range `q` of the stream `s` leaves of the gaps and blocks.
pub record Adds (s : ℕ → ℕ) (chunk base : ℕ) (q : Range) (gaps : List Range) (blocks : List Block)
    (p : Pushed) : Type 0 where
  pub left : p.left ≡ (push_gaps true q gaps).0
  pub success : p.rv ≡ ok tt
  pub order : IsBlocks chunk base 0 p.held
  pub filled :
      (x : ℕ) → in_gaps x gaps ≡ true → in_range x q ≡ true → stored chunk x p.held ≡ some (s x)
  pub kept : (x : ℕ) → stored chunk x blocks ≡ some (s x) → stored chunk x p.held ≡ some (s x)

module _ (memory : Memory) (m : HasMemory memory) (s : ℕ → ℕ) (chunk base : ℕ) (pos : 0 < chunk)
    (small : chunk < 2 ^ 62) (q : Range) (hq : q.begin ≤ q.end) (big : q.end ≤ 2 ^ 62) where
  abbrev input : List ℕ
  input = segment s q.begin (q.end - q.begin)

  -- What a way on does from any blocks.
  abbrev AddsFrom : List Range → (List Block → Pushed) → Type 0
  AddsFrom gaps k =
      (blocks : List Block)
      → IsBlocks chunk base 0 blocks
      → Adds s chunk base q gaps blocks (k blocks)

  abbrev IsApart : Range → Type 0
  IsApart g = (q.end ≤ q.begin) ⊎ (q.end ≤ g.begin) ⊎ (g.end ≤ q.begin)

  -- At a gap that the range does not meet.
  next_gap-Adds :
      (g : Range) (gaps : List Range) (k : List Block → Pushed)
      → IsApart g
      → g.begin < g.end
      → g.end < 2 ^ 64
      → IsGaps g.end gaps
      → AddsFrom gaps k
      → AddsFrom (g ∷ gaps) (next_gap q k g gaps)
  unfolding next_gap keep_gap range_not_after
  next_gap-Adds g gaps k h h1 h2 hg adds blocks hb =
      let a = adds blocks hb in
      let gone : push_gaps true q (g ∷ gaps) ≡ Gaptr.next_gap q g gaps (push_gaps true q gaps) =
        push_gaps_apart q g gaps h1 h2 h in
      elim (leb-cases q.end g.end) [
        | inl (le, e) ↦ rw e (record {
          left = rw gone (unfold Gaptr.next_gap in rw e refl);
          success = refl;
          order = hb;
          filled = λ x i j.
              absurd (unfold in_gaps in_range in ground (arith, in_gaps-below g.end x gaps hg));
          kept = λ x same. same;
        })
        | inr (gt, e) ↦ rw e (record {
          left = rw gone (unfold Gaptr.next_gap Gaptr.keep in rw e (ap (λ l. g ∷ l) a.left));
          success = a.success;
          order = a.order;
          filled = λ x i j. a.filled x (unfold in_gaps in_range in ground arith) j;
          kept = a.kept;
        })
      ]

  written-Stores :
      (a b : ℕ) (blocks : List Block)
      → IsBlocks chunk base 0 blocks
      → q.begin ≤ a
      → a < b
      → b ≤ q.end
      → base ≤ a
      → Stores s chunk base 0 a
          (b - a)
          blocks
          (rob_write_data memory chunk blocks a (take (b - a) (drop (a - q.begin) input)))
  written-Stores a b blocks hb h1 h2 h3 h4 =
      let from : q.begin + (a - q.begin) ≡ a = omega arith in
      rw
        (
          drop-segment (a - q.begin) s q.begin (q.end - q.begin) (omega arith),
          from,
          take-segment (b - a) s a (q.end - q.begin - (a - q.begin)) (omega arith),
        )
        (rob_write_data-Stores memory m s chunk base pos small a (b - a) blocks hb h4 (omega arith)
          (omega arith))

  -- The write of what lies from `a` to `b`, and a way on that does the rest.
  after_write-Adds :
      (a b : ℕ) (gaps gaps' failed : List Range) (k : List Block → Pushed)
      → q.begin ≤ a
      → a < b
      → b ≤ q.end
      → base ≤ a
      → AddsFrom gaps' k
      → (push_gaps true q gaps').0 ≡ (push_gaps true q gaps).0
      → ((x : ℕ)
          → in_gaps x gaps ≡ true
          → in_range x q ≡ true
          → (in_gaps x gaps' ≡ true) ⊎ ((a ≤ x) × (x < b)))
      → (blocks : List Block) → IsBlocks chunk base 0 blocks
      → Adds s chunk base q gaps blocks (
          after_write
            (rob_write_data memory chunk blocks a (take (b - a) (drop (a - q.begin) input)))
            failed
            k)
  unfolding after_write
  after_write-Adds a b gaps gaps' failed k h1 h2 h3 h4 adds same cover blocks hb =
      let w = rob_write_data memory chunk blocks a (take (b - a) (drop (a - q.begin) input)) in
      let t : Stores s chunk base 0 a (b - a) blocks w = written-Stores a b blocks hb h1 h2 h3 h4 in
      let r = adds w.0 t.order in
      rw t.success (record {
        left = r.left ∙ same;
        success = r.success;
        order = r.order;
        filled = λ x i j. elim (cover x i j) [
          | inl later ↦ r.filled x later j
          | inr (lo, hi) ↦ r.kept x (t.inside x lo (omega arith))
        ];
        kept = λ x before. r.kept x (t.kept x before);
      })

  -- Before the end of the range the walk goes on.
  next_gap_passes :
      (k : List Block → Pushed) (g : Range) (gaps : List Range) (blocks : List Block)
      → g.end < q.end
      → next_gap q k g gaps blocks ≡ keep_gap g (k blocks)
  unfolding next_gap range_not_after
  next_gap_passes k g gaps blocks h = rw (lt→leb_false q.end g.end h) refl

  gap_new : (r : Range) → rob_gap_new memory r.begin r.end ≡ ok r
  unfolding rob_gap_new range_init
  gap_new r = rw (m.gaps r.begin) refl

  split_gap_ok :
      (k : List Block → Pushed) (l r : Range) (gaps : List Range) (blocks : List Block)
      (w : Written)
      → split_gap memory q k l r gaps blocks w
        ≡ after_write w (l ∷ r ∷ gaps) (λ held. keep_gap l (next_gap q k r gaps held))
  unfolding split_gap
  split_gap_ok k l r gaps blocks w = ap (after_gap q k l gaps blocks w) (gap_new r)

  -- The gap tracker splits a gap in the same way.
  split_same :
      (g : Range) (gaps : List Range)
      → g.begin < q.begin
      → q.begin < q.end
      → q.end < g.end
      → g.end < 2 ^ 64
      → (push_gaps true q (range_init g.begin q.begin ∷ range_init q.end g.end ∷ gaps)).0
        ≡ (push_gaps true q (g ∷ gaps)).0
  unfolding range_init
  split_same g gaps a b c d =
      let l : Range = range_init g.begin q.begin in
      let r : Range = range_init q.end g.end in
      let tail = push_gaps true q gaps in
      let first : push_gaps true q (l ∷ r ∷ gaps)
          ≡ Gaptr.next_gap q l (r ∷ gaps) (push_gaps true q (r ∷ gaps)) =
        push_gaps_apart q l (r ∷ gaps) a (omega arith) (inr (inr (omega arith))) in
      let second : push_gaps true q (r ∷ gaps) ≡ Gaptr.next_gap q r gaps tail =
        push_gaps_apart q r gaps c d (inr (inl (omega arith))) in
      let split : push_gaps true q (g ∷ gaps) ≡ Gaptr.split_gap true q l r gaps tail =
        push_gaps_inside q g gaps (omega arith) d a b c in
      let passes : leb q.end q.begin ≡ false = lt→leb_false q.end q.begin b in
      rw (first, second, split)
        (unfold Gaptr.next_gap Gaptr.split_gap Gaptr.keep gaptr_gap_new range_not_after in
          rw passes refl)

  -- One gap, with a loop that does the rest.
  module _ (g : Range) (gaps : List Range) (h1 : base ≤ g.begin) (h2 : g.begin < g.end)
      (h3 : g.end < 2 ^ 64) (hg : IsGaps g.end gaps)
      (adds : AddsFrom gaps (push_loop memory chunk q input gaps)) where
    abbrev AddsHere : Type 0
    AddsHere = AddsFrom (g ∷ gaps) (push_loop memory chunk q input (g ∷ gaps))

    abbrev loop : List Block → Pushed
    loop = push_loop memory chunk q input gaps

    apart-Adds : IsApart g → AddsHere
    apart-Adds h blocks hb =
        rw (push_loop_apart memory chunk q g input gaps blocks h2 h3 h)
          (next_gap-Adds g gaps loop h h2 h3 hg adds blocks hb)

    covers-Adds : q.begin ≤ g.begin → g.end ≤ q.end → AddsHere
    covers-Adds a b blocks hb = rw (push_loop_covers memory chunk q g input gaps blocks h2 h3 a b) (
        after_write-Adds g.begin g.end (g ∷ gaps) gaps gaps loop a h2 b h1 adds
          (ap (λ p. p.0) (sym (push_gaps_covers q g gaps h2 h3 a b)))
          (λ x i j. unfold in_gaps in_range in ground arith) blocks hb)

    on_right-Adds : g.begin < q.begin → q.begin < g.end → g.end ≤ q.end → AddsHere
    unfolding range_init
    on_right-Adds a b c blocks hb =
        let l : Range = range_init g.begin q.begin in
        let hl : IsApart l = inr (inr (omega arith)) in
        let next =
          next_gap-Adds l gaps loop hl a (omega arith)
            (IsGaps-lower g.end q.begin gaps (omega arith) hg) adds in
        rw (push_loop_on_right memory chunk q g input gaps blocks h2 h3 a b c) (
          after_write-Adds q.begin g.end (g ∷ gaps) (l ∷ gaps) (l ∷ gaps) (next_gap q loop l gaps)
            (omega arith) b c (omega arith) next
            (ap (λ p. p.0)
              (push_gaps_apart q l gaps a (omega arith) hl
                ∙ sym (push_gaps_on_right q g gaps h2 h3 a b c)))
            (λ x i j. unfold in_gaps in_range in ground arith) blocks hb)

    on_left-Adds : q.begin ≤ g.begin → g.begin < q.end → q.end < g.end → AddsHere
    unfolding range_init
    on_left-Adds a b c blocks hb =
        let r : Range = range_init q.end g.end in
        let hr : IsApart r = inr (inl (omega arith)) in
        let next = next_gap-Adds r gaps loop hr c h3 hg adds in
        rw (push_loop_on_left memory chunk q g input gaps blocks h2 h3 a b c) (
          after_write-Adds g.begin q.end (g ∷ gaps) (r ∷ gaps) (r ∷ gaps) (next_gap q loop r gaps) a
            b (omega arith) h1 next
            (ap (λ p. p.0)
              (push_gaps_apart q r gaps c h3 hr ∙ sym (push_gaps_on_left q g gaps h2 h3 a b c)))
            (λ x i j. unfold in_gaps in_range in ground arith) blocks hb)

    inside-Adds : g.begin < q.begin → q.begin < q.end → q.end < g.end → AddsHere
    unfolding range_init
    inside-Adds a b c blocks hb =
        let l : Range = range_init g.begin q.begin in
        let r : Range = range_init q.end g.end in
        let hl : IsApart l = inr (inr (omega arith)) in
        let hr : IsApart r = inr (inl (omega arith)) in
        let next = next_gap-Adds r gaps loop hr c h3 hg adds in
        let both =
          next_gap-Adds l (r ∷ gaps) (next_gap q loop r gaps) hl a (omega arith)
            (omega arith, c, h3, hg) next in
        rw
          (
            push_loop_inside memory chunk q g input gaps blocks h2 h3 a b c,
            split_gap_ok loop l r gaps blocks
                (write memory chunk q g input gaps blocks h2 h3 q.begin q.end),
          )
          (after_write-Adds q.begin q.end (g ∷ gaps) (l ∷ r ∷ gaps) (l ∷ r ∷ gaps)
            (λ held. keep_gap l (next_gap q loop r gaps held)) (omega arith) b (omega arith)
            (omega arith)
            (λ held hh.
              rw (next_gap_passes (next_gap q loop r gaps) l (r ∷ gaps) held b) at (both held hh))
            (split_same g gaps a b c h3) (λ x i j. unfold in_gaps in_range in ground arith) blocks
            hb)

  -- The loop of `ngtcp2_rob_push` returns with the gaps that a gap tracker would have.
  pub push_loop-Adds :
      (low : ℕ) (gaps : List Range)
      → base ≤ low
      → IsGaps low gaps
      → AddsFrom gaps (push_loop memory chunk q input gaps)
  unfolding push_loop push_gaps
  push_loop-Adds low [] h hg = λ blocks hb. record {
    left = refl;
    success = refl;
    order = hb;
    filled = λ x i j. absurd (unfold in_gaps in ground arith);
    kept = λ x same. same;
  }
  push_loop-Adds low (g ∷ gaps) h (h1, h2, h3, hg) =
      let adds = push_loop-Adds g.end gaps (omega arith) hg in
      let from : base ≤ g.begin = omega arith in
      elim (place q g) [
        | apart a ↦ apart-Adds g gaps from h2 h3 hg adds a
        | covers a b ↦ covers-Adds g gaps from h2 h3 hg adds a b
        | inside a b c ↦ inside-Adds g gaps from h2 h3 hg adds a b c
        | on_right a b c ↦ on_right-Adds g gaps from h2 h3 hg adds a b c
        | on_left a b c ↦ on_left-Adds g gaps from h2 h3 hg adds a b c
      ]
