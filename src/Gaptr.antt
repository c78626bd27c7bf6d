-- ===== src/Gaptr.antt =====
-- Polygon/lib/ngtcp2_gaptr.c: the gaps in the data received. The state is the list of gaps. Each call takes
-- whether `ngtcp2_mem_malloc` gives memory, and gives the gaps that it leaves with its result.
pub mod Push
pub mod Received
mod Tests
use polygon.Base.{
  ℕ, ◌-◌, ◌^◌, Bool, not, List, [], ◌∷◌, ◌==◌, if◌then◌else◌, Result, ok, err, fault, add64, nomem,
}
use polygon.Range.{
  Range, range_init, range_intersect, range_len, range_equal, range_cut, range_not_after,
}

unfoldable pub gaptr_gap_new : Bool → ℕ → ℕ → Result Range
unfolding range_init
gaptr_gap_new has_memory begin end = if has_memory then ok (range_init begin end) else err nomem

unfoldable pub gaptr_init : Bool → Result (List Range)
unfolding gaptr_gap_new
gaptr_init has_memory = elim (gaptr_gap_new has_memory 0 (2 ^ 64 - 1)) [
  | ok g ↦ ok (g ∷ [])
  | err e ↦ err e
  | fault ↦ fault
]

abbrev pub Pushed : Type 0
Pushed = List Range × Result (Unit {0})

unfoldable pub keep : Range → Pushed → Pushed
keep g (gaps, rv) = (g ∷ gaps, rv)

-- The end of the loop's body at the gap `g`: `rest` is what the loop gives on the gaps behind it.
unfoldable pub next_gap : Range → Range → List Range → Pushed → Pushed
unfolding keep
next_gap q g gaps rest = if range_not_after q g then (g ∷ gaps, ok tt) else keep g rest

-- `*pg` is split into `l` and a new gap for `r`; without memory only `l` is left of it.
unfoldable pub split_gap : Bool → Range → Range → Range → List Range → Pushed → Pushed
unfolding next_gap gaptr_gap_new
split_gap has_memory q l r gaps rest = elim (gaptr_gap_new has_memory r.begin r.end) [
  | ok ng ↦ keep l (next_gap q ng gaps rest)
  | err e ↦ (l ∷ gaps, err e)
  | fault ↦ (l ∷ gaps, fault)
]

unfoldable pub push_gaps : Bool → Range → List Range → Pushed
unfolding next_gap split_gap
push_gaps has_memory q [] = ([], ok tt)
push_gaps has_memory q (g ∷ gaps) =
    let rest = push_gaps has_memory q gaps in
    let m = range_intersect q g in
    if range_len m == 0
    then next_gap q g gaps rest
    else if range_equal g m
    then rest
    else let (l, r) = range_cut g m in
      if not (range_len l == 0)
      then if not (range_len r == 0)
        then split_gap has_memory q l r gaps rest
        else next_gap q l gaps rest
      else if not (range_len r == 0)
      then next_gap q r gaps rest
      else next_gap q g gaps rest

unfoldable pub gaptr_push : Bool → ℕ → ℕ → List Range → Pushed
unfolding push_gaps
gaptr_push has_memory offset datalen gaps =
    push_gaps has_memory (range_init offset (add64 offset datalen)) gaps

unfoldable pub gaptr_first_gap_offset : List Range → ℕ
gaptr_first_gap_offset [] = 2 ^ 64 - 1
gaptr_first_gap_offset (g ∷ gaps) = g.begin
