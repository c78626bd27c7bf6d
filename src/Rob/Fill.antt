-- ===== src/Rob/Fill.antt =====
-- One round of the loop of `rob_write_data`: a piece of the stream is copied into a block.
use polygon.Base.{
  ℕ, ◌+◌, ◌-◌, ◌≤◌, ◌<◌, ◌^◌, true, false, ◌&&◌, List, ◌∷◌, ltb, leb, ◌==◌, ◌≡◌, refl,
  if◌then◌else◌, some, arith, segment, inl, inr, length-segment, take-segment, drop-segment, ok,
  add64, sub64, min, Result, ap, ltb-cases,
}
use polygon.Rob.{
  Memory, Block, Written, copy, after_new, keep_block, write_into, write_new, rob_data_new,
}
use polygon.Rob.Blocks.{
  floor, IsAligned, floor_le, floor_lt, floor_ge, floor-IsAligned, IsAligned-next, stored,
  stored-below, IsBlocks, copy-segment,
}

-- There is memory for every gap and block.
pub record HasMemory (memory : Memory) : Type 0 where
  pub gaps : (x : ℕ) → memory.for_gap x ≡ true
  pub blocks : (x : ℕ) → memory.for_data x ≡ true

-- The blocks of the stream `s` after the bytes from `offset` on have been written.
pub record Stores (s : ℕ → ℕ) (chunk base low offset len : ℕ) (blocks : List Block) (w : Written)
    : Type 0 where
  pub success : w.1 ≡ ok tt
  pub order : IsBlocks chunk base low w.0
  pub inside : (x : ℕ) → offset ≤ x → x < offset + len → stored chunk x w.0 ≡ some (s x)
  pub kept : (x : ℕ) → stored chunk x blocks ≡ some (s x) → stored chunk x w.0 ≡ some (s x)

module _ (memory : Memory) (m : HasMemory memory) (s : ℕ → ℕ) (chunk base : ℕ) (pos : 0 < chunk)
    (small : chunk < 2 ^ 62) where
  -- What the loop does from a later block on, with at most so many bytes left.
  abbrev pub Loops : (List Block → ℕ → List ℕ → Written) → List Block → ℕ → Type 0
  Loops again blocks most =
      (low offset len : ℕ)
      → len ≤ most
      → IsBlocks chunk base low blocks
      → IsAligned chunk low
      → low ≤ offset
      → base ≤ offset
      → 0 < len
      → offset + len ≤ 2 ^ 62
      → Stores s chunk base low offset len blocks (again blocks offset (segment s offset len))

  -- The bytes that fit into the block.
  abbrev room : Block → ℕ → ℕ → ℕ
  room b offset len = min len (b.offset + chunk - offset)

  abbrev filled : Block → ℕ → ℕ → Block
  filled b offset len = copy (offset - b.offset) (segment s offset (room b offset len)) b

  write_into-equation :
      (again : List Block → ℕ → List ℕ → Written) (b : Block) (rest : List Block) (offset len : ℕ)
      → b.offset ≤ offset
      → offset ≤ b.offset + chunk
      → offset + len ≤ 2 ^ 62
      → write_into chunk again b rest offset (segment s offset len) ≡ (
          if ltb (b.offset + chunk) (offset + len)
          then keep_block (filled b offset len) (
              again rest
                (b.offset + chunk)
                (segment s (b.offset + chunk) (offset + len - (b.offset + chunk))))
          else (filled b offset len ∷ rest, ok tt))
  unfolding write_into
  write_into-equation again b rest offset len h1 h2 h3 =
      let wide : add64 b.offset chunk ≡ b.offset + chunk = omega arith in
      let apart : sub64 (b.offset + chunk) offset ≡ b.offset + chunk - offset = omega arith in
      rw
        (
          length-segment s offset len,
          wide,
          apart,
          take-segment (room b offset len) s offset len (omega arith),
          drop-segment (room b offset len) s offset len (omega arith),
        )
        (elim (ltb-cases (b.offset + chunk) (offset + len)) [
          | inl (over, e) ↦
              let left : (len - room b offset len == 0) ≡ false = ground arith in
              let next : add64 offset (room b offset len) ≡ b.offset + chunk = omega arith in
              let next' : offset + room b offset len ≡ b.offset + chunk = omega arith in
              let rest_len : len - room b offset len ≡ offset + len - (b.offset + chunk) =
                omega arith in
              rw (e, left, next, next', rest_len) refl
          | inr (fits, e) ↦
              let left : (len - room b offset len == 0) ≡ true = ground arith in rw (e, left) refl
        ])

  filled-bytes :
      (b : Block) (offset len x : ℕ)
      → b.offset ≤ offset
      → b.offset ≤ x
      → (filled b offset len).bytes (x - b.offset) ≡ (
          if leb offset x && ltb x (offset + room b offset len)
          then s x
          else b.bytes (x - b.offset))
  filled-bytes b offset len x h1 h2 =
      let at : b.offset + (offset - b.offset) ≡ offset = omega arith in
      let there : b.offset + (x - b.offset) ≡ x = omega arith in
      let same : (leb (offset - b.offset) (x - b.offset)
            && ltb (x - b.offset) (offset - b.offset + room b offset len))
          ≡ (leb offset x && ltb x (offset + room b offset len)) =
        ground arith in
      rw (at, there, same) at
        (copy-segment s (offset - b.offset) (room b offset len) (x - b.offset) b)

  -- The block `b` with other bytes `g`, and the blocks that the rest of the piece leaves.
  filled-Stores :
      (low offset len : ℕ) (b : Block) (rest held : List Block) (g : ℕ → ℕ) (rv : Result (Unit {0}))
      → IsBlocks chunk base low (b ∷ rest)
      → b.offset ≤ offset
      → ((x : ℕ)
          → b.offset ≤ x
          → g (x - b.offset) ≡ (
              if leb offset x && ltb x (offset + room b offset len)
              then s x
              else b.bytes (x - b.offset)))
      → ((x : ℕ)
          → b.offset + chunk ≤ x
          → offset ≤ x
          → x < offset + len
          → stored chunk x held ≡ some (s x))
      → ((x : ℕ) → stored chunk x rest ≡ some (s x) → stored chunk x held ≡ some (s x))
      → IsBlocks chunk base (b.offset + chunk) held
      → rv ≡ ok tt
      → Stores s chunk base low offset len (b ∷ rest) (record b { bytes = g } ∷ held, rv)
  unfolding stored
  filled-Stores low offset len b rest held g rv (h1, h2, h3, h4, h) h5 bytes later kept order
        success =
      record {
        success = success;
        order = (h1, h2, h3, h4, order);
        inside = λ x lo hi. ground (arith, bytes x, later x);
        kept = λ x before. ground (arith, bytes x, kept x, before);
      }

  pub write_into-Stores :
      (again : List Block → ℕ → List ℕ → Written) (low offset len : ℕ) (b : Block)
      (rest : List Block)
      → Loops again rest (offset + len - (b.offset + chunk))
      → IsBlocks chunk base low (b ∷ rest)
      → b.offset ≤ offset
      → offset ≤ b.offset + chunk
      → base ≤ offset
      → IsAligned chunk (b.offset + chunk)
      → 0 < len
      → offset + len ≤ 2 ^ 62
      → Stores s chunk base low offset len
          (b ∷ rest)
          (write_into chunk again b rest offset (segment s offset len))
  unfolding copy
  write_into-Stores again low offset len b rest loops (h1, h2, h3, h4, h) h5 h6 h7 al h8 h9 =
      rw (write_into-equation again b rest offset len h5 h6 h9)
        (elim (ltb-cases (b.offset + chunk) (offset + len)) [
          | inl (over, e) ↦
              let t =
                loops (b.offset + chunk) (b.offset + chunk) (offset + len - (b.offset + chunk))
                  (omega arith) h al (omega arith) (omega arith) (omega arith) (omega arith) in
              let w =
                again rest (b.offset + chunk)
                  (segment s (b.offset + chunk) (offset + len - (b.offset + chunk))) in
              rw e (
                filled-Stores low offset len b rest w.0 (filled b offset len).bytes w.1
                  (h1, h2, h3, h4, h) h5 (λ x. filled-bytes b offset len x h5)
                  (λ x a c d. t.inside x a (omega arith)) t.kept t.order t.success)
          | inr (fits, e) ↦ rw e (
              filled-Stores low offset len b rest rest (filled b offset len).bytes (ok tt)
                (h1, h2, h3, h4, h) h5 (λ x. filled-bytes b offset len x h5)
                (λ x a c d. absurd (omega arith)) (λ x same. same) h refl)
        ])

  data_new :
      (offset : ℕ)
      → rob_data_new memory offset ≡ ok (record { offset = offset; bytes = memory.content })
  unfolding rob_data_new
  data_new offset = rw (m.blocks offset) refl

  write_new-equation :
      (again : List Block → ℕ → List ℕ → Written) (blocks : List Block) (offset : ℕ)
      (input : List ℕ)
      → write_new memory chunk again blocks offset input
        ≡ write_into chunk again
            (record { offset = floor chunk offset; bytes = memory.content })
            blocks
            offset
            input
  unfolding write_new floor
  write_new-equation again blocks offset input =
      ap (after_new chunk again blocks offset input) (data_new (floor chunk offset))

  -- A new block holds nothing that the blocks behind it hold.
  stored_behind :
      (b : Block) (blocks : List Block) (x : ℕ)
      → IsBlocks chunk base (b.offset + chunk) blocks
      → stored chunk x blocks ≡ some (s x)
      → stored chunk x (b ∷ blocks) ≡ some (s x)
  unfolding stored
  stored_behind b blocks x h before =
      ground (arith, before, stored-below chunk base (b.offset + chunk) x blocks h)

  pub write_new-Stores :
      (again : List Block → ℕ → List ℕ → Written) (low offset len : ℕ) (blocks : List Block)
      → Loops again blocks (len - 1)
      → IsBlocks chunk base low blocks
      → IsBlocks chunk base (floor chunk offset + chunk) blocks
      → IsAligned chunk low
      → low ≤ offset
      → base ≤ offset
      → 0 < len
      → offset + len ≤ 2 ^ 62
      → Stores s chunk base low offset len blocks
          (write_new memory chunk again blocks offset (segment s offset len))
  write_new-Stores again low offset len blocks loops h0 h al h1 h2 h3 h4 =
      let b : Block = record { offset = floor chunk offset; bytes = memory.content } in
      let below = floor_le chunk pos offset in
      let above = floor_lt chunk pos offset in
      let behind = floor_ge chunk pos low offset al h1 in
      let t =
        write_into-Stores again low offset len b blocks
          (λ low' offset' len' most. loops low' offset' len' (omega arith))
          (behind, floor-IsAligned chunk pos offset, omega arith, omega arith, h) below
          (omega arith) h2 (IsAligned-next chunk pos b.offset (floor-IsAligned chunk pos offset)) h3
          h4 in
      rw (write_new-equation again blocks offset (segment s offset len)) (record {
        success = t.success;
        order = t.order;
        inside = t.inside;
        kept = λ x before. t.kept x (stored_behind b blocks x h before);
      })
