-- ===== src/Rob.antt =====
-- Polygon/lib/ngtcp2_rob.c: the reorder buffer, which keeps stream data that has come out of order. The state
-- is the list of gaps and the list of blocks of `chunk` bytes; what is at `begin` of a block is a function from
-- positions. A call takes what `ngtcp2_mem_malloc` gives, and gives the lists that it leaves with its result.
pub mod Blocks
pub mod Fill
pub mod Write
pub mod Places
pub mod Push
pub mod Stream
pub mod Deliver
pub mod Front
pub mod First
mod Tests
use polygon.Base.{
  ℕ, zero, suc, ◌+◌, ◌-◌, ◌*◌, ◌/◌, ◌^◌, Bool, true, false, not, ◌&&◌, List, [], ◌∷◌, length, take,
  drop, ltb, leb, ◌==◌, if◌then◌else◌, min, Result, ok, err, fault, ◌>>=◌, ◌>>◌, assert, add64,
  sub64, nomem, segment,
}
use polygon.Range.{
  Range, range_init, range_intersect, range_len, range_equal, range_cut, range_not_after,
}

-- Whether there is memory for the gap that begins at an offset and for the block at an offset, and what is in
-- memory that has not been written.
pub record Memory : Type 0 where
  pub for_gap : ℕ → Bool
  pub for_data : ℕ → Bool
  pub content : ℕ → ℕ

pub record Block : Type 0 where
  pub offset : ℕ
  pub bytes : ℕ → ℕ

pub record Rob : Type 0 where
  pub gaps : List Range
  pub blocks : List Block
  pub chunk : ℕ

unfoldable pub rob_gap_new : Memory → ℕ → ℕ → Result Range
unfolding range_init
rob_gap_new memory begin end = if memory.for_gap begin then ok (range_init begin end) else err nomem

unfoldable pub rob_data_new : Memory → ℕ → Result Block
rob_data_new memory offset =
    if memory.for_data offset
    then ok (record { offset = offset; bytes = memory.content })
    else err nomem

unfoldable pub rob_init : Memory → ℕ → Result Rob
unfolding rob_gap_new
rob_init memory chunk = do
  g ← rob_gap_new memory 0 (2 ^ 64 - 1)
  ok (record { gaps = g ∷ []; blocks = []; chunk = chunk })

abbrev pub nth : List ℕ → ℕ → ℕ
nth [] i = 0
nth (x ∷ xs) zero = x
nth (x ∷ xs) (suc i) = nth xs i

-- `memcpy` of `input` to position `at` of a block.
unfoldable pub copy : ℕ → List ℕ → Block → Block
copy at input b = record b {
  bytes = λ j. if leb at j && ltb j (at + length input) then nth input (j - at) else b.bytes j;
}

abbrev pub Written : Type 0
Written = List Block × Result (Unit {0})

abbrev pub keep_block : Block → Written → Written
keep_block b (blocks, rv) = (b ∷ blocks, rv)

-- The end of the loop's body of `rob_write_data` at the block `b`: `again` is the loop.
unfoldable pub write_into :
    ℕ → (List Block → ℕ → List ℕ → Written) → Block → List Block → ℕ → List ℕ → Written
write_into chunk again b rest offset input =
    let n = min (length input) (sub64 (add64 b.offset chunk) offset) in
    let b' = copy (offset - b.offset) (take n input) b in
    let further = keep_block b' (again rest (add64 offset n) (drop n input)) in
    if length input - n == 0 then (b' ∷ rest, ok tt) else further

-- What follows the call of `ngtcp2_rob_data_new`: the block is inserted before `*pd` and written.
abbrev pub after_new :
    ℕ → (List Block → ℕ → List ℕ → Written) → List Block → ℕ → List ℕ → Result Block → Written
after_new chunk again blocks offset input (ok nd) = write_into chunk again nd blocks offset input
after_new chunk again blocks offset input (err e) = (blocks, err e)
after_new chunk again blocks offset input fault = (blocks, fault)

unfoldable pub write_new :
    Memory → ℕ → (List Block → ℕ → List ℕ → Written) → List Block → ℕ → List ℕ → Written
write_new memory chunk again blocks offset input =
    after_new chunk again blocks offset input (rob_data_new memory (offset / chunk * chunk))

-- The loop of `rob_write_data` on fuel, from `*pd` on.
unfoldable pub write_loop : ℕ → Memory → ℕ → List Block → ℕ → List ℕ → Written
write_loop zero memory chunk blocks offset input = (blocks, fault)
write_loop (suc fuel) memory chunk [] offset input =
    write_new memory chunk (write_loop fuel memory chunk) [] offset input
write_loop (suc fuel) memory chunk (b ∷ rest) offset input =
    let again = write_loop fuel memory chunk in
    let further = keep_block b (again rest offset input) in
    if ltb offset b.offset
    then write_new memory chunk again (b ∷ rest) offset input
    else if ltb (add64 b.offset chunk) offset
    then further
    else write_into chunk again b rest offset input

unfoldable pub rob_write_data : Memory → ℕ → List Block → ℕ → List ℕ → Written
rob_write_data memory chunk blocks offset input =
    write_loop (suc (length blocks + length input)) memory chunk blocks offset input

pub record Pushed : Type 0 where
  pub left : List Range
  pub held : List Block
  pub rv : Result (Unit {0})

unfoldable pub keep_gap : Range → Pushed → Pushed
keep_gap g p = record p { left = g ∷ p.left }

-- The end of the loop's body of `ngtcp2_rob_push` at the gap `g`.
unfoldable pub next_gap : Range → (List Block → Pushed) → Range → List Range → List Block → Pushed
next_gap q rest g gaps blocks =
    if range_not_after q g
    then record { left = g ∷ gaps; held = blocks; rv = ok tt }
    else keep_gap g (rest blocks)

-- What follows the call of `rob_write_data`; `gaps` are the gaps if it fails.
unfoldable pub after_write : Written → List Range → (List Block → Pushed) → Pushed
after_write (blocks, rv) gaps k = elim rv [
  | ok _ ↦ k blocks
  | err e ↦ record { left = gaps; held = blocks; rv = err e }
  | fault ↦ record { left = gaps; held = blocks; rv = fault }
]

-- What follows the call of `ngtcp2_rob_gap_new`: the gap is inserted behind `l`, and the data is written.
abbrev pub after_gap :
    Range
    → (List Block → Pushed)
    → Range
    → List Range
    → List Block
    → Written
    → Result Range
    → Pushed
after_gap q rest l gaps blocks written (ok ng) =
    after_write written (l ∷ ng ∷ gaps) (λ held. keep_gap l (next_gap q rest ng gaps held))
after_gap q rest l gaps blocks written (err e) = record {
  left = l ∷ gaps;
  held = blocks;
  rv = err e;
}
after_gap q rest l gaps blocks written fault = record { left = l ∷ gaps; held = blocks; rv = fault }

unfoldable pub split_gap :
    Memory
    → Range
    → (List Block → Pushed)
    → Range
    → Range
    → List Range
    → List Block
    → Written
    → Pushed
split_gap memory q rest l r gaps blocks written =
    after_gap q rest l gaps blocks written (rob_gap_new memory r.begin r.end)

-- The loop of `ngtcp2_rob_push`, from `*pg` on.
unfoldable pub push_loop : Memory → ℕ → Range → List ℕ → List Range → List Block → Pushed
push_loop memory chunk q input [] blocks = record { left = []; held = blocks; rv = ok tt }
push_loop memory chunk q input (g ∷ gaps) blocks =
    let rest = push_loop memory chunk q input gaps in
    let m = range_intersect q g in
    let piece = take (range_len m) (drop (m.begin - q.begin) input) in
    let written = rob_write_data memory chunk blocks m.begin piece in
    if range_len m == 0
    then next_gap q rest g gaps blocks
    else if range_equal g m
    then after_write written gaps rest
    else let (l, r) = range_cut g m in
      if not (range_len l == 0)
      then if not (range_len r == 0)
        then split_gap memory q rest l r gaps blocks written
        else after_write written (l ∷ gaps) (next_gap q rest l gaps)
      else if not (range_len r == 0)
      then after_write written (r ∷ gaps) (next_gap q rest r gaps)
      else after_write written (g ∷ gaps) (next_gap q rest g gaps)

-- `input` are the `datalen` bytes.
unfoldable pub rob_push : Memory → Rob → ℕ → List ℕ → Rob × Result (Unit {0})
rob_push memory rob offset input =
    let q = range_init offset (add64 offset (length input)) in
    let p = push_loop memory rob.chunk q input rob.gaps rob.blocks in
    (record rob { gaps = p.left; blocks = p.held }, p.rv)

unfoldable pub remove_gaps : ℕ → List Range → List Range
remove_gaps offset [] = []
remove_gaps offset (g ∷ gaps) =
    let rest = remove_gaps offset gaps in
    if leb offset g.begin
    then g ∷ gaps
    else if ltb offset g.end
    then record g { begin = offset } ∷ gaps
    else rest

unfoldable pub remove_blocks : ℕ → ℕ → List Block → List Block
remove_blocks chunk offset [] = []
remove_blocks chunk offset (b ∷ blocks) =
    let rest = remove_blocks chunk offset blocks in
    if leb offset b.offset
    then b ∷ blocks
    else if ltb offset (add64 b.offset chunk)
    then b ∷ blocks
    else rest

unfoldable pub rob_remove_prefix : Rob → ℕ → Rob
rob_remove_prefix rob offset = record rob {
  gaps = remove_gaps offset rob.gaps;
  blocks = remove_blocks rob.chunk offset rob.blocks;
}

-- The bytes that are handed out; none where the function returns 0.
unfoldable pub rob_data_at : Rob → ℕ → Result (List ℕ)
rob_data_at rob offset = elim rob.gaps [
  | [] ↦ fault
  | g ∷ _ ↦
      let read : Result (List ℕ) = elim rob.blocks [
        | [] ↦ fault
        | d ∷ _ ↦ do
          assert (leb d.offset offset)
          assert (ltb offset (add64 d.offset rob.chunk))
          ok (segment d.bytes (offset - d.offset) (min g.begin (add64 d.offset rob.chunk) - offset))
      ] in
      if leb g.begin offset then ok [] else read
]

unfoldable pub rob_pop : Rob → ℕ → ℕ → Result Rob
rob_pop rob offset len = elim rob.blocks [
  | [] ↦ fault
  | d ∷ blocks ↦
      if ltb (add64 offset len) (add64 d.offset rob.chunk)
      then ok rob
      else ok (record rob { blocks = blocks })
]

unfoldable pub rob_first_gap_offset : Rob → ℕ
rob_first_gap_offset rob = elim rob.gaps [ [] ↦ 2 ^ 64 - 1 | g ∷ _ ↦ g.begin ]
