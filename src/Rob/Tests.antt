-- ===== src/Rob/Tests.antt =====
-- Runs of ngtcp2_rob.c with blocks of four bytes.
use polygon.Base.{
  ℕ, ◌+◌, ◌^◌, true, false, ◌&&◌, [], ◌∷◌, ◌≡◌, refl, ok, err, nomem, arith, ◌>>=◌, segment,
  if◌then◌else◌, ◌==◌, leb, ◌-◌,
}
use polygon.Range.{range_init, range_intersect, range_len, range_equal, range_cut, range_not_after}
use polygon.Range.Gaps.{in_gaps, in_range}
use polygon.Rob.{
  Memory, Rob, rob_gap_new, rob_data_new, rob_push, push_loop, rob_write_data, write_loop,
  write_new, write_into, copy, next_gap, keep_gap, after_write, split_gap, rob_remove_prefix,
  rob_data_at, rob_pop, rob_first_gap_offset,
}
use polygon.Rob.Fill.{HasMemory}
use polygon.Rob.Stream.{IsRob, Pushes, rob_push-Pushes}
use polygon.Rob.Deliver.{rob_remove_prefix-IsRob}
use polygon.Rob.Front.{Front, rob_data_at-Front}

abbrev plenty : Memory
plenty = record { for_gap = λ x. true; for_data = λ x. true; content = λ x. 0 }

-- The stream whose byte at offset `x` is `x + 100`.
abbrev byte_at : ℕ → ℕ
byte_at x = x + 100

abbrev new : Rob
new = record { gaps = range_init 0 (2 ^ 64 - 1) ∷ []; blocks = []; chunk = 4 }

-- Bytes 2 to 6 come before bytes 0 and 1; the first block is handed out, then the second as far as it goes.
two_pieces :
    (do
      let a = (rob_push plenty new 2 (102 ∷ 103 ∷ 104 ∷ 105 ∷ 106 ∷ [])).0
      let b = (rob_push plenty a 0 (100 ∷ 101 ∷ [])).0
      first ← rob_data_at b 0
      c ← rob_pop b 0 4
      second ← rob_data_at c 4
      ok (first ∷ second ∷ []))
    ≡ ok ((100 ∷ 101 ∷ 102 ∷ 103 ∷ []) ∷ (104 ∷ 105 ∷ 106 ∷ []) ∷ [])
unfolding rob_push push_loop rob_write_data write_loop write_new write_into copy next_gap keep_gap
    after_write split_gap rob_gap_new rob_data_new rob_data_at rob_pop range_intersect range_len
    range_equal range_cut range_not_after
two_pieces = refl

-- Without memory for a block the gap is closed all the same.
push_without_memory :
    (let r = rob_push (record plenty { for_data = λ x. false }) new 0 (100 ∷ []) in
      if rob_first_gap_offset r.0 == 1 then r.1 else ok tt)
    ≡ err nomem
unfolding rob_push push_loop rob_write_data write_loop write_new write_into copy next_gap keep_gap
    after_write split_gap rob_gap_new rob_data_new rob_first_gap_offset range_intersect range_len
    range_equal range_cut range_not_after
push_without_memory = refl

plenty-HasMemory : HasMemory plenty
plenty-HasMemory = record { gaps = λ x. refl; blocks = λ x. refl }

new-IsRob : IsRob byte_at 0 new
unfolding in_gaps in_range range_init
new-IsRob = record {
  pos = omega arith;
  small = omega arith;
  gaps_order = (omega arith, omega arith, omega arith, tt);
  blocks_order = tt;
  held = λ x a b c. absurd (ground arith);
  endless = λ x a b. ground arith;
}

abbrev pushed : Rob
pushed = (rob_push plenty new 2 (segment byte_at 2 5)).0

rob_push-Pushes_example : Pushes byte_at 0 2 5 new (rob_push plenty new 2 (segment byte_at 2 5))
rob_push-Pushes_example =
    rob_push-Pushes plenty byte_at 0 2 5 new plenty-HasMemory new-IsRob (omega arith)

pushed-IsRob : IsRob byte_at 0 pushed
pushed-IsRob =
    (rob_push-Pushes plenty byte_at 0 2 5 new plenty-HasMemory new-IsRob (omega arith)).state

rob_remove_prefix-IsRob_example :
    IsRob byte_at 3 (rob_remove_prefix pushed 3)
    × ((x : ℕ) → in_gaps x (rob_remove_prefix pushed 3).gaps ≡ (in_gaps x pushed.gaps && leb 3 x))
rob_remove_prefix-IsRob_example =
    rob_remove_prefix-IsRob byte_at 0 3 pushed pushed-IsRob (omega arith) (omega arith)

rob_data_at-Front_example : Front byte_at 3 (rob_remove_prefix pushed 3)
rob_data_at-Front_example =
    rob_data_at-Front byte_at 3 (rob_remove_prefix pushed 3)
      (rob_remove_prefix-IsRob byte_at 0 3 pushed pushed-IsRob (omega arith) (omega arith)).0
