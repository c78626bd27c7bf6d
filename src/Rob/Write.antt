-- ===== src/Rob/Write.antt =====
-- `rob_write_data` puts a piece of the stream into the blocks and leaves what they hold.
use polygon.Base.{
  ℕ, zero, suc, ◌+◌, ◌-◌, ◌≤◌, ◌<◌, ◌^◌, List, [], ◌∷◌, length, ◌≡◌, refl, arith, segment, inl, inr,
  length-segment, add64, ltb-cases, lt→ltb, le→ltb_false,
}
use polygon.Rob.{
  Memory, Block, Written, keep_block, write_into, write_new, write_loop, rob_write_data,
}
use polygon.Rob.Blocks.{IsAligned, floor_next, IsAligned-next, IsAligned-zero, stored, IsBlocks}
use polygon.Rob.Fill.{HasMemory, Stores, Loops, write_into-Stores, write_new-Stores}

module _ (memory : Memory) (m : HasMemory memory) (s : ℕ → ℕ) (chunk base : ℕ) (pos : 0 < chunk)
    (small : chunk < 2 ^ 62) where
  write_loop_end :
      (fuel offset : ℕ) (input : List ℕ)
      → write_loop (suc fuel) memory chunk [] offset input
        ≡ write_new memory chunk (write_loop fuel memory chunk) [] offset input
  unfolding write_loop
  write_loop_end fuel offset input = refl

  -- The three ways on at a block.
  module _ (fuel : ℕ) (b : Block) (rest : List Block) (offset : ℕ) (input : List ℕ) where
    write_loop_before :
        offset < b.offset
        → write_loop (suc fuel) memory chunk (b ∷ rest) offset input
          ≡ write_new memory chunk (write_loop fuel memory chunk) (b ∷ rest) offset input
    unfolding write_loop
    write_loop_before h = rw (lt→ltb offset b.offset h) refl

    write_loop_past :
        b.offset + chunk < offset
        → offset < 2 ^ 63
        → write_loop (suc fuel) memory chunk (b ∷ rest) offset input
          ≡ keep_block b (write_loop fuel memory chunk rest offset input)
    unfolding write_loop
    write_loop_past h big =
        let wide : add64 b.offset chunk ≡ b.offset + chunk = omega arith in
        rw (le→ltb_false offset b.offset (omega arith), wide, lt→ltb (b.offset + chunk) offset h)
          refl

    write_loop_here :
        b.offset ≤ offset
        → offset ≤ b.offset + chunk
        → b.offset + chunk < 2 ^ 63
        → write_loop (suc fuel) memory chunk (b ∷ rest) offset input
          ≡ write_into chunk (write_loop fuel memory chunk) b rest offset input
    unfolding write_loop
    write_loop_here h1 h2 big =
        let wide : add64 b.offset chunk ≡ b.offset + chunk = omega arith in
        rw (le→ltb_false offset b.offset h1, wide, le→ltb_false (b.offset + chunk) offset h2) refl

  -- A block that lies before the piece stays.
  passed-Stores :
      (low offset len : ℕ) (b : Block) (rest : List Block) (w : Written)
      → IsBlocks chunk base low (b ∷ rest)
      → b.offset + chunk < offset
      → Stores s chunk base (b.offset + chunk) offset len rest w
      → Stores s chunk base low offset len (b ∷ rest) (keep_block b w)
  unfolding stored
  passed-Stores low offset len b rest w (h1, h2, h3, h4, h) lt t = record {
    success = t.success;
    order = (h1, h2, h3, h4, t.order);
    inside = λ x lo hi. ground (arith, t.inside x);
    kept = λ x before. ground (arith, before, t.kept x);
  }

  write_loop-Stores :
      (fuel low offset len : ℕ) (blocks : List Block)
      → length blocks + len < fuel
      → IsBlocks chunk base low blocks
      → IsAligned chunk low
      → low ≤ offset
      → base ≤ offset
      → 0 < len
      → offset + len ≤ 2 ^ 62
      → Stores s chunk base low offset len blocks
          (write_loop fuel memory chunk blocks offset (segment s offset len))
  write_loop-Stores zero low offset len blocks f h al h1 h2 h3 h4 = absurd (omega arith)
  write_loop-Stores (suc fuel) low offset len [] f h al h1 h2 h3 h4 =
      let loops : Loops memory m s chunk base pos small (write_loop fuel memory chunk) []
          (len - 1) =
        λ low' offset' len' most. write_loop-Stores fuel low' offset' len' [] (omega arith) in
      rw (write_loop_end fuel offset (segment s offset len)) (
        write_new-Stores memory m s chunk base pos small (write_loop fuel memory chunk) low offset
          len [] loops tt tt al h1 h2 h3 h4)
  write_loop-Stores (suc fuel) low offset len (b ∷ rest) f (b1, b2, b3, b4, h) al h1 h2 h3 h4 =
      let again = write_loop fuel memory chunk in
      let input = segment s offset len in
      let behind : Loops memory m s chunk base pos small again rest len =
        λ low' offset' len' most. write_loop-Stores fuel low' offset' len' rest (omega arith) in
      elim (ltb-cases offset b.offset) [
        | inl (before, _) ↦
            let loops : Loops memory m s chunk base pos small again (b ∷ rest) (len - 1) =
              λ low' offset' len' most.
                write_loop-Stores fuel low' offset' len' (b ∷ rest) (omega arith) in
            rw (write_loop_before fuel b rest offset input before) (
              write_new-Stores memory m s chunk base pos small again low offset len (b ∷ rest) loops
                (b1, b2, b3, b4, h) (floor_next chunk pos b.offset offset b2 before, b2, b3, b4, h)
                al h1 h2 h3 h4)
        | inr (from, _) ↦ elim (ltb-cases (b.offset + chunk) offset) [
          | inl (past, _) ↦ rw (write_loop_past fuel b rest offset input past (omega arith)) (
              passed-Stores low offset len b rest (again rest offset input) (b1, b2, b3, b4, h) past
                (behind (b.offset + chunk) offset len (omega arith) h
                  (IsAligned-next chunk pos b.offset b2) (omega arith) h2 h3 h4))
          | inr (here, _) ↦ rw (write_loop_here fuel b rest offset input from here b4) (
              write_into-Stores memory m s chunk base pos small again low offset len b rest
                (λ low' offset' len' most. behind low' offset' len' (omega arith))
                (b1, b2, b3, b4, h) from here h2 (IsAligned-next chunk pos b.offset b2) h3 h4)
        ]
      ]

  -- `rob_write_data` returns, puts the piece in its place and keeps what the blocks hold of the stream.
  pub rob_write_data-Stores :
      (offset len : ℕ) (blocks : List Block)
      → IsBlocks chunk base 0 blocks
      → base ≤ offset
      → 0 < len
      → offset + len ≤ 2 ^ 62
      → Stores s chunk base 0 offset len blocks
          (rob_write_data memory chunk blocks offset (segment s offset len))
  unfolding rob_write_data
  rob_write_data-Stores offset len blocks h h2 h3 h4 =
      write_loop-Stores (suc (length blocks + length (segment s offset len))) 0 offset len blocks
        (omega (arith, length-segment s offset len)) h (IsAligned-zero chunk pos) (omega arith) h2
        h3 h4
