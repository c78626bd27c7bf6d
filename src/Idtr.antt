-- ===== src/Idtr.antt =====
-- Polygon/lib/ngtcp2_idtr.c: the stream identifiers that have been used. The state is the list of the
-- unused ones; a call takes whether `ngtcp2_mem_malloc` gives memory.
pub mod Open
pub mod Used
mod Tests
use polygon.Base.{
  ℕ, ◌-◌, ◌/◌, ◌%◌, ◌^◌, Bool, not, ◌&&◌, ◌||◌, List, [], ◌∷◌, ltb, leb, ◌==◌, if◌then◌else◌,
  Result, ok, err, fault, ◌>>=◌, ◌>>◌, assert, add64, nomem, stream_in_use,
}
use polygon.Range.{Range, range_init, range_len}

pub record Idtr : Type 0 where
  pub server : Bool
  pub gaps : List Range

unfoldable pub idtr_gap_new : Bool → ℕ → ℕ → Result Range
unfolding range_init
idtr_gap_new has_memory begin end = if has_memory then ok (range_init begin end) else err nomem

unfoldable pub idtr_init : Bool → Bool → Result Idtr
unfolding idtr_gap_new
idtr_init has_memory server = do
  g ← idtr_gap_new has_memory 0 (2 ^ 64 - 1)
  ok (record { server = server; gaps = g ∷ [] })

-- `stream_id >> 2`
unfoldable pub id_from_stream_id : ℕ → ℕ
id_from_stream_id stream_id = stream_id / 4

-- The condition that `ngtcp2_idtr_open` and `ngtcp2_idtr_is_open` assert, with the parentheses that they
-- have.
unfoldable pub initiator_test : Bool → ℕ → Bool
initiator_test server stream_id =
    let odd = not (stream_id % 2 == 0) in server && odd || not (not server && odd)

abbrev pub Opened : Type 0
Opened = List Range × Result (Unit {0})

unfoldable pub keep_gap : Range → Opened → Opened
keep_gap g (gaps, rv) = (g ∷ gaps, rv)

-- The identifier `q` is inside the gap `g`, which becomes two.
unfoldable pub split_at : Bool → ℕ → Range → List Range → Opened
unfolding idtr_gap_new range_init
split_at has_memory q g gaps = elim (idtr_gap_new has_memory g.begin q) [
  | ok ng ↦ (ng ∷ range_init (add64 q 1) g.end ∷ gaps, ok tt)
  | err e ↦ (g ∷ gaps, err e)
  | fault ↦ (g ∷ gaps, fault)
]

unfoldable pub open_gaps : Bool → ℕ → List Range → Opened
unfolding keep_gap split_at range_len
open_gaps has_memory q [] = ([], err stream_in_use)
open_gaps has_memory q (g ∷ gaps) =
    let rest = open_gaps has_memory q gaps in
    if ltb q g.begin
    then (g ∷ gaps, err stream_in_use)
    else if leb g.end q
    then keep_gap g rest
    else if q == g.begin
    then if range_len g == 1
      then (gaps, ok tt)
      else (range_init (add64 g.begin 1) g.end ∷ gaps, ok tt)
    else split_at has_memory q g gaps

unfoldable pub idtr_open : Bool → Idtr → ℕ → Idtr × Result (Unit {0})
unfolding open_gaps initiator_test id_from_stream_id
idtr_open has_memory idtr stream_id =
    let p = open_gaps has_memory (id_from_stream_id stream_id) idtr.gaps in
    if initiator_test idtr.server stream_id
    then (record idtr { gaps = p.0 }, p.1)
    else (idtr, fault)

unfoldable pub find_open : ℕ → List Range → Result (Unit {0})
find_open q [] = ok tt
find_open q (g ∷ gaps) =
    let rest = find_open q gaps in
    if ltb q g.begin then err stream_in_use else if leb g.end q then rest else ok tt

unfoldable pub idtr_is_open : Idtr → ℕ → Result (Unit {0})
unfolding find_open initiator_test id_from_stream_id
idtr_is_open idtr stream_id = do
  assert (initiator_test idtr.server stream_id)
  find_open (id_from_stream_id stream_id) idtr.gaps

unfoldable pub first_begin : List Range → ℕ
first_begin [] = 2 ^ 64 - 1
first_begin (g ∷ gaps) = g.begin

unfoldable pub idtr_first_gap : Idtr → ℕ
unfolding first_begin
idtr_first_gap idtr = first_begin idtr.gaps
