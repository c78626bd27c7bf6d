-- ===== src/Rob/Blocks.antt =====
-- The blocks of a reorder buffer as the bytes of a stream.
use polygon.Base.{
  true, false, ◌⊎◌, inl, inr, ℕ, zero, suc, ◌+◌, ◌-◌, ◌*◌, ◌/◌, ◌≤◌, ◌<◌, ◌^◌, ◌&&◌, List, [], ◌∷◌,
  ltb, leb, ◌≡◌, refl, if◌then◌else◌, Option, none, some, arith, segment, length-segment,
}
use native.Mathlib.Nat.{
  div-mul-le_self, lt-div-mul-add, le-div_iff_mul-le, mul-le-mul_right, lt_of_mul-lt-mul_right,
  suc-mul, add-div_right, mul-div_cancel,
}
use polygon.Rob.{Block, copy, nth}

-- The beginning of the block that an offset belongs to.
unfoldable pub floor : ℕ → ℕ → ℕ
floor chunk x = x / chunk * chunk

abbrev pub IsAligned : ℕ → ℕ → Type 0
IsAligned chunk a = floor chunk a ≡ a

module _ (chunk : ℕ) (pos : 0 < chunk) where
  pub floor_le : (x : ℕ) → floor chunk x ≤ x
  unfolding floor
  floor_le x = div-mul-le_self x chunk

  pub floor_lt : (x : ℕ) → x < floor chunk x + chunk
  unfolding floor
  floor_lt x = lt-div-mul-add pos

  -- An aligned offset below `x` lies at or before the block of `x`.
  pub floor_ge : (a x : ℕ) → IsAligned chunk a → a ≤ x → a ≤ floor chunk x
  unfolding floor
  floor_ge a x h le =
      let quotient : a / chunk ≤ x / chunk =
        (le-div_iff_mul-le {x = a / chunk} {y = x} pos).1 (omega (arith, h)) in
      omega (arith, h, mul-le-mul_right chunk quotient)

  -- An aligned offset above `x` lies behind the block of `x`.
  pub floor_next : (a x : ℕ) → IsAligned chunk a → x < a → floor chunk x + chunk ≤ a
  unfolding floor
  floor_next a x h lt =
      let below : x / chunk * chunk < a / chunk * chunk =
        omega (arith, h, div-mul-le_self x chunk) in
      let quotient : x / chunk < a / chunk = lt_of_mul-lt-mul_right chunk below in
      let next : suc (x / chunk) * chunk ≤ a / chunk * chunk =
        mul-le-mul_right chunk (omega (arith, quotient)) in
      omega (arith, h, next, suc-mul (x / chunk) chunk)

  pub IsAligned-zero : IsAligned chunk 0
  IsAligned-zero = omega (arith, floor_le 0)

  pub IsAligned-next : (a : ℕ) → IsAligned chunk a → IsAligned chunk (a + chunk)
  unfolding floor
  IsAligned-next a h = rw (add-div_right a pos) (omega (arith, h, suc-mul (a / chunk) chunk))

  pub floor-IsAligned : (x : ℕ) → IsAligned chunk (floor chunk x)
  unfolding floor
  floor-IsAligned x = rw (mul-div_cancel (x / chunk) pos) refl

-- The byte that the blocks hold at an offset of the stream.
unfoldable pub stored : ℕ → ℕ → List Block → Option ℕ
stored chunk x [] = none
stored chunk x (b ∷ blocks) =
    if leb b.offset x && ltb x (b.offset + chunk)
    then some (b.bytes (x - b.offset))
    else stored chunk x blocks

-- Blocks in ascending order from `low` on, in their places and small enough, each of them with bytes from `base` on.
abbrev pub IsBlocks : ℕ → ℕ → ℕ → List Block → Type 0
IsBlocks chunk base low [] = Unit
IsBlocks chunk base low (b ∷ blocks) =
    (low ≤ b.offset)
    × IsAligned chunk b.offset
    × (base < b.offset + chunk)
    × (b.offset + chunk < 2 ^ 63)
    × IsBlocks chunk base (b.offset + chunk) blocks

pub stored-below :
    (chunk base low x : ℕ) (blocks : List Block)
    → IsBlocks chunk base low blocks
    → x < low
    → stored chunk x blocks ≡ none
unfolding stored
stored-below chunk base low x [] h lt = refl
stored-below chunk base low x (b ∷ blocks) (h1, h2, h3, h4, h) lt =
    ground (arith, stored-below chunk base (b.offset + chunk) x blocks h (omega arith))

pub IsBlocks-lower :
    (chunk base low low' : ℕ) (blocks : List Block)
    → low' ≤ low
    → IsBlocks chunk base low blocks
    → IsBlocks chunk base low' blocks
IsBlocks-lower chunk base low low' [] le h = tt
IsBlocks-lower chunk base low low' (b ∷ blocks) le (h1, h2, h3, h4, h) =
    (omega arith, h2, h3, h4, h)

nth-segment : (f : ℕ → ℕ) (a n i : ℕ) → i < n → nth (segment f a n) i ≡ f (a + i)
nth-segment f a zero i h = absurd (omega arith)
nth-segment f a (suc n) zero h = let e : a + 0 ≡ a = omega arith in rw e refl
nth-segment f a (suc n) (suc i) h =
    let e : a + suc i ≡ suc a + i = omega arith in rw e (nth-segment f (suc a) n i (omega arith))

in_piece :
    (at n j : ℕ)
    → ((at ≤ j) × (j < at + n) × ((leb at j && ltb j (at + n)) ≡ true))
      ⊎ ((leb at j && ltb j (at + n)) ≡ false)
in_piece at n j = ground arith

-- A block into which a piece of the stream has been copied.
pub copy-segment :
    (s : ℕ → ℕ) (at n j : ℕ) (b : Block)
    → (copy at (segment s (b.offset + at) n) b).bytes j
      ≡ (if leb at j && ltb j (at + n) then s (b.offset + j) else b.bytes j)
unfolding copy
copy-segment s at n j b = rw (length-segment s (b.offset + at) n) (elim (in_piece at n j) [
  | inl (h1, h2, e) ↦
      let there : b.offset + at + (j - at) ≡ b.offset + j = omega arith in
      rw (e, nth-segment s (b.offset + at) n (j - at) (omega arith), there) refl
  | inr e ↦ rw e refl
])
