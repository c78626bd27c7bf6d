-- ===== src/Pkt/Number.antt =====
-- `ngtcp2_pkt_adjust_pkt_num`: the full packet number for its `n` low bits. The mask
-- `k & ~((1 << n) - 1)` is written as `k / 2 ^ n * 2 ^ n`.
pub mod Closest
use polygon.Base.{ℕ, ◌+◌, ◌-◌, ◌*◌, ◌/◌, ◌%◌, ◌^◌, ltb, ◌==◌, if◌then◌else◌, add64, sub64, bit_or}

-- The next packet number, unless the highest one is the last.
unfoldable pub next_pkt_num : ℕ → ℕ
next_pkt_num max_pkt_num = if max_pkt_num == 2 ^ 64 - 1 then max_pkt_num else add64 max_pkt_num 1

-- `k < a ? a - k : k - a`
unfoldable pub distance : ℕ → ℕ → ℕ
distance k a = if ltb k a then a - k else k - a

unfoldable pub adjust_pkt_num : ℕ → ℕ → ℕ → ℕ
unfolding next_pkt_num
adjust_pkt_num max_pkt_num pkt_num n =
    let k = next_pkt_num max_pkt_num in
    let u = k / 2 ^ n * 2 ^ n in
    let a = bit_or u pkt_num in
    let b = bit_or (add64 u (2 ^ n)) pkt_num in if ltb (distance k a) (distance k b) then a else b
