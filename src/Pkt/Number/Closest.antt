-- ===== src/Pkt/Number/Closest.antt =====
-- Which packet number `ngtcp2_pkt_adjust_pkt_num` finds.
use polygon.Base.{
  ℕ, suc, ◌+◌, ◌*◌, ◌/◌, ◌%◌, ◌^◌, ◌≤◌, ◌<◌, ltb, ltb-cases, if◌then◌else◌, ◌≡◌, ◌⊎◌, inl, inr,
  arith, ◌∙◌,
}
use polygon.Pkt.Number.{next_pkt_num, distance, adjust_pkt_num}
use polygon.Base.Digits.{bit_or-add}
use native.Mathlib.Nat.{mod-lt, div-add-mod', add-mod_right, div-eq_of_lt-le, pow-le-pow_right}

-- The choice of the code between the numbers with the low bits `p` in the block of `k` and in the next one.
unfoldable choose : ℕ → ℕ → ℕ → ℕ → ℕ
unfolding distance
choose k u w p = if ltb (distance k (u + p)) (distance k (u + w + p)) then u + p else u + w + p

-- A number splits into its block and its place in the block.
split_block : (x w : ℕ) → 0 < w → (x / w * w + x % w ≡ x) × (x % w < w)
split_block x w h = (div-add-mod' x w, mod-lt x h)

adjust_pkt_num-choose :
    (max p n : ℕ)
    → max < 2 ^ 62
    → 2 ^ n ≤ 2 ^ 62
    → p < 2 ^ n
    → adjust_pkt_num max p n ≡ choose (suc max) (suc max / 2 ^ n * 2 ^ n) (2 ^ n) p
unfolding adjust_pkt_num next_pkt_num choose
adjust_pkt_num-choose max p n hm hn hp =
    let q = suc max / 2 ^ n in
    let next : (q + 1) * 2 ^ n ≡ q * 2 ^ n + 2 ^ n = omega arith in
    ground (
      arith,
      bit_or-add n q p hp,
      bit_or-add n (q + 1) p hp,
      split_block (suc max) (2 ^ n) (omega arith),
    )

-- A number in a known block is told by its place in it.
in_block : (q w x : ℕ) → 0 < w → q * w ≤ x → x < q * w + w → x ≡ q * w + x % w
in_block q w x hw low high =
    let block : x / w ≡ q = div-eq_of_lt-le w low (omega arith) in
    ground (arith, split_block x w hw)

same_place :
    (q w x : ℕ)
    → 0 < w
    → q * w ≤ x
    → x < q * w + w + w
    → (x ≡ q * w + x % w) ⊎ (x ≡ q * w + w + x % w)
same_place q w x hw low high =
    let next : (q + 1) * w ≡ q * w + w = omega arith in
    elim (ltb-cases x (q * w + w)) [
      | inl (lt, e) ↦ inl (in_block q w x hw low lt)
      | inr (ge, e) ↦ inr (omega (arith, in_block (q + 1) w x hw (omega arith) (omega arith)))
    ]

choose-closest :
    (k u w p x : ℕ)
    → u ≤ k
    → k < u + w
    → p < w
    → (x ≡ u + p) ⊎ (x ≡ u + w + p)
    → distance k x + distance k x < w
    → choose k u w p ≡ x
unfolding choose distance
choose-closest k u w p x h1 h2 h3 h4 h5 = ground arith

choose-too_large :
    (k u w p full : ℕ)
    → u ≤ k
    → k < u + w
    → p < w
    → full < u
    → full + w ≡ u + p
    → distance k full + distance k full < w
    → choose k u w p ≡ full + w
unfolding choose distance
choose-too_large k u w p full h1 h2 h3 h4 h5 h6 = ground arith

-- A distance below half a block stays within the next block.
near_block : (k u w x : ℕ) → k < u + w → distance k x + distance k x < w → x < u + w + w
unfolding distance
near_block k u w x h near = ground arith

not_two_below : (k u w x : ℕ) → u ≤ k → distance k x + distance k x < w → u ≤ x + w
unfolding distance
not_two_below k u w x h near = ground arith

-- A number less than half of `2 ^ n` away from the next packet number is recovered from its `n` low
-- bits, if it does not lie below the block of `2 ^ n` numbers that holds the next one; below it, the
-- result is `2 ^ n` too large.
pub adjust_pkt_num-recovers :
    (max full n : ℕ)
    → max < 2 ^ 62
    → n ≤ 62
    → distance (suc max) full + distance (suc max) full < 2 ^ n
    → adjust_pkt_num max (full % 2 ^ n) n
      ≡ (if ltb full (suc max / 2 ^ n * 2 ^ n) then full + 2 ^ n else full)
adjust_pkt_num-recovers max full n hm hn near =
    let w = 2 ^ n in
    let q = suc max / w in
    let u = q * w in
    let wide : w ≤ 2 ^ 62 = pow-le-pow_right (omega arith) hn in
    let pos : 0 < w = omega arith in
    let block : (u + suc max % w ≡ suc max) × (suc max % w < w) = split_block (suc max) w pos in
    let low : u ≤ suc max = omega arith in
    let high : suc max < u + w = omega arith in
    let place : full % w < w = mod-lt full pos in
    adjust_pkt_num-choose max (full % w) n hm wide place ∙ elim (ltb-cases full u) [
      | inl (lt, e) ↦
          let same : (full + w) % w ≡ full % w = add-mod_right full w in
          let back : full + w ≡ u + (full + w) % w =
            in_block q w (full + w) pos (not_two_below (suc max) u w full low near) (omega arith) in
          ground (
            arith,
            choose-too_large (suc max) u w (full % w) full low high place lt (omega arith) near,
          )
      | inr (ge, e) ↦
          let there : (full ≡ u + full % w) ⊎ (full ≡ u + w + full % w) =
            same_place q w full pos ge (near_block (suc max) u w full high near) in
          ground (arith, choose-closest (suc max) u w (full % w) full low high place there near)
    ]
