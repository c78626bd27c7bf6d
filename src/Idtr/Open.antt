-- ===== src/Idtr/Open.antt =====
-- `ngtcp2_idtr_open` takes one identifier out of the gaps, `ngtcp2_idtr_is_open` finds whether it is in
-- one.
use polygon.Base.{
  ℕ, ◌≤◌, ◌<◌, ◌^◌, true, not, ◌&&◌, List, [], ◌∷◌, ltb-cases, leb-cases, ==-cases, inl, inr, ◌⊎◌,
  ◌==◌, if◌then◌else◌, ◌≡◌, refl, arith, ok, err, stream_in_use, add64,
}
use polygon.Range.{Range, range_init, range_len}
use polygon.Range.Gaps.{in_range, in_gaps, IsAscending, in_gaps-ascending, IsAscending-lower}
use polygon.Idtr.{Opened, open_gaps, split_at, keep_gap, idtr_gap_new, find_open}

-- What an attempt to use `q` leaves of the gaps.
pub record Uses (low q : ℕ) (gaps : List Range) (p : Opened) : Type 0 where
  pub result : p.1 ≡ (if in_gaps q gaps then ok tt else err stream_in_use)
  pub order : IsAscending low p.0
  pub exact : (x : ℕ) → in_gaps x p.0 ≡ (in_gaps x gaps && not (x == q))

not_single :
    (g : Range)
    → g.begin ≤ g.end
    → g.end < 2 ^ 64
    → (range_len g < 1) ⊎ (1 < range_len g)
    → g.begin < g.end
    → add64 g.begin 1 ≤ g.end
unfolding range_len
not_single g b c more lt = ground arith

open_gaps-IsAscending :
    (low q : ℕ) (g : Range) (gaps : List Range)
    → IsAscending low (g ∷ gaps)
    → IsAscending g.end (open_gaps true q gaps).0
    → IsAscending low (open_gaps true q (g ∷ gaps)).0
unfolding open_gaps split_at keep_gap idtr_gap_new range_init
open_gaps-IsAscending low q g gaps (a, b, c, hg) ht = elim (ltb-cases q g.begin) [
  | inl (lt, e) ↦ rw e (a, b, c, hg)
  | inr (ge, e) ↦ elim (leb-cases g.end q) [
    | inl (le, e') ↦ rw (e, e') (a, b, c, ht)
    | inr (gt, e') ↦ elim (==-cases q g.begin) [
      | inl (eq, e2) ↦ elim (==-cases (range_len g) 1) [
        | inl (one, e3) ↦ rw (e, e', e2, e3) (IsAscending-lower g.end low gaps (omega arith) hg)
        | inr (more, e3) ↦
            rw (e, e', e2, e3) (omega arith, not_single g b c more (omega arith), c, hg)
      ]
      | inr (ne, e2) ↦
          rw (e, e', e2) (a, ground arith, omega arith, (ground arith, ground arith, c, hg))
    ]
  ]
]

pub open_gaps-Uses :
    (low q : ℕ) (gaps : List Range) → IsAscending low gaps → Uses low q gaps (open_gaps true q gaps)
unfolding open_gaps split_at keep_gap idtr_gap_new range_len range_init in_gaps in_range
open_gaps-Uses low q [] h = record { result = refl; order = tt; exact = λ x. refl }
open_gaps-Uses low q (g ∷ gaps) (a, b, c, hg) =
    let t : Uses g.end q gaps (open_gaps true q gaps) = open_gaps-Uses g.end q gaps hg in
    record {
      result = ground (arith, t.result, in_gaps-ascending g.end q gaps hg);
      order = open_gaps-IsAscending low q g gaps (a, b, c, hg) t.order;
      exact = λ x.
          ground (
            arith,
            t.exact x,
            in_gaps-ascending g.end x gaps hg,
            in_gaps-ascending g.end q gaps hg,
          );
    }

pub find_open-in_gaps :
    (q : ℕ) (gaps : List Range) (low limit : ℕ)
    → IsAscending low gaps
    → q < limit
    → in_gaps limit gaps ≡ true
    → find_open q gaps ≡ (if in_gaps q gaps then ok tt else err stream_in_use)
unfolding find_open in_gaps in_range
find_open-in_gaps q [] low limit hg h e = ground arith
find_open-in_gaps q (g ∷ gaps) low limit (a, b, c, hg) h e =
    ground (arith, find_open-in_gaps q gaps g.end limit hg h, in_gaps-ascending g.end q gaps hg)
