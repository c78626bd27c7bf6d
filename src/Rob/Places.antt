-- ===== src/Rob/Places.antt =====
-- What the loop of `ngtcp2_rob_push` does with one gap, by where the gap lies.
use polygon.Base.{
  ℕ, ◌-◌, ◌≤◌, ◌<◌, ◌^◌, true, false, not, List, ◌∷◌, take, drop, ◌==◌, ◌≡◌, refl, ◌⊎◌, inl, inr,
  if◌then◌else◌, arith, min, max, lt→ltb,
}
use polygon.Range.{Range, range_init, range_intersect, range_len, range_equal, range_cut}
use polygon.Rob.{
  Memory, Block, Written, Pushed, rob_write_data, push_loop, next_gap, after_write, split_gap,
}

module _ (memory : Memory) (chunk : ℕ) (q g : Range) (input : List ℕ) (gaps : List Range)
    (blocks : List Block) (hg : g.begin < g.end) (small : g.end < 2 ^ 64) where
  -- The loop behind the gap, and the write of what lies from `a` to `b`.
  abbrev pub rest : List Block → Pushed
  rest = push_loop memory chunk q input gaps

  abbrev pub write : ℕ → ℕ → Written
  write a b = rob_write_data memory chunk blocks a (take (b - a) (drop (a - q.begin) input))

  pub push_loop_apart :
      (q.end ≤ q.begin) ⊎ (q.end ≤ g.begin) ⊎ (g.end ≤ q.begin)
      → push_loop memory chunk q input (g ∷ gaps) blocks ≡ next_gap q rest g gaps blocks
  unfolding push_loop range_intersect range_len
  push_loop_apart h = ground arith

  -- The part of the gap that the range meets.
  range_intersect_meets :
      (a b : ℕ)
      → max q.begin g.begin ≡ a
      → min q.end g.end ≡ b
      → a < b
      → range_intersect q g ≡ range_init a b
  unfolding range_intersect range_init
  range_intersect_meets a b ha hb lt = rw (ha, hb, lt→ltb a b lt) refl

  range_len_init : (a b : ℕ) → a < b → b < 2 ^ 64 → range_len (range_init a b) ≡ b - a
  unfolding range_len range_init
  range_len_init a b lt big = omega arith

  some_len : (a b : ℕ) → a < b → (b - a == 0) ≡ false
  some_len a b lt = ground arith

  no_len : (a b : ℕ) → a ≡ b → (range_len (range_init a b) == 0) ≡ true
  unfolding range_len range_init
  no_len a b same = ground arith

  pub push_loop_covers :
      q.begin ≤ g.begin
      → g.end ≤ q.end
      → push_loop memory chunk q input (g ∷ gaps) blocks
        ≡ after_write (write g.begin g.end) gaps rest
  unfolding push_loop range_init
  push_loop_covers h1 h2 =
      let same : range_equal g (range_init g.begin g.end) ≡ true =
        unfold range_equal in ground arith in
      rw
        (
          range_intersect_meets g.begin g.end (omega arith) (omega arith) hg,
          range_len_init g.begin g.end hg small,
          some_len g.begin g.end hg,
          same,
        )
        refl

  -- The gap is cut where the range meets only a part of it, from `a` to `b`.
  module _ (a b : ℕ) (ha : max q.begin g.begin ≡ a) (hb : min q.end g.end ≡ b) (lt : a < b) where
    differs : (g.begin < a) ⊎ (b < g.end) → range_equal g (range_init a b) ≡ false
    unfolding range_equal range_init
    differs h = ground arith

    push_loop_cut :
        (g.begin < a) ⊎ (b < g.end)
        → push_loop memory chunk q input (g ∷ gaps) blocks ≡ (
            let l = range_init g.begin a in
            let r = range_init b g.end in
            if not (range_len l == 0)
            then if not (range_len r == 0)
              then split_gap memory q rest l r gaps blocks (write a b)
              else after_write (write a b) (l ∷ gaps) (next_gap q rest l gaps)
            else if not (range_len r == 0)
            then after_write (write a b) (r ∷ gaps) (next_gap q rest r gaps)
            else after_write (write a b) (g ∷ gaps) (next_gap q rest g gaps))
    unfolding push_loop range_init range_cut
    push_loop_cut h =
        rw
          (
            range_intersect_meets a b ha hb lt,
            range_len_init a b lt (omega arith),
            some_len a b lt,
            differs h,
          )
          refl

    long : (c d : ℕ) → c < d → d < 2 ^ 64 → (range_len (range_init c d) == 0) ≡ false
    long c d h big = rw (range_len_init c d h big, some_len c d h) refl

  pub push_loop_inside :
      g.begin < q.begin
      → q.begin < q.end
      → q.end < g.end
      → push_loop memory chunk q input (g ∷ gaps) blocks
        ≡ split_gap memory q rest
            (range_init g.begin q.begin)
            (range_init q.end g.end)
            gaps
            blocks
            (write q.begin q.end)
  push_loop_inside h1 h2 h3 =
      let a : max q.begin g.begin ≡ q.begin = omega arith in
      let b : min q.end g.end ≡ q.end = omega arith in
      rw
        (
          push_loop_cut q.begin q.end a b h2 (inl h1),
          long q.begin q.end a b h2 g.begin q.begin h1 (omega arith),
          long q.begin q.end a b h2 q.end g.end h3 small,
        )
        refl

  pub push_loop_on_right :
      g.begin < q.begin
      → q.begin < g.end
      → g.end ≤ q.end
      → push_loop memory chunk q input (g ∷ gaps) blocks
        ≡ after_write
            (write q.begin g.end)
            (range_init g.begin q.begin ∷ gaps)
            (next_gap q rest (range_init g.begin q.begin) gaps)
  push_loop_on_right h1 h2 h3 =
      let a : max q.begin g.begin ≡ q.begin = omega arith in
      let b : min q.end g.end ≡ g.end = omega arith in
      rw
        (
          push_loop_cut q.begin g.end a b h2 (inl h1),
          long q.begin g.end a b h2 g.begin q.begin h1 (omega arith),
          no_len g.end g.end refl,
        )
        refl

  pub push_loop_on_left :
      q.begin ≤ g.begin
      → g.begin < q.end
      → q.end < g.end
      → push_loop memory chunk q input (g ∷ gaps) blocks
        ≡ after_write
            (write g.begin q.end)
            (range_init q.end g.end ∷ gaps)
            (next_gap q rest (range_init q.end g.end) gaps)
  push_loop_on_left h1 h2 h3 =
      let a : max q.begin g.begin ≡ g.begin = omega arith in
      let b : min q.end g.end ≡ q.end = omega arith in
      rw
        (
          push_loop_cut g.begin q.end a b h2 (inr h3),
          no_len g.begin g.begin refl,
          long g.begin q.end a b h2 q.end g.end h3 small,
        )
        refl
