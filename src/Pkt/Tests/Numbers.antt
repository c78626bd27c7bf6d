-- ===== src/Pkt/Tests/Numbers.antt =====
-- Packet numbers.
use polygon.Base.{suc, ◌+◌, ◌-◌, ◌*◌, ◌/◌, ◌%◌, ◌^◌, ltb, ◌≡◌, refl, arith, if◌then◌else◌, ◌<◌}
use polygon.Pkt.Number.{adjust_pkt_num, distance}
use polygon.Pkt.Number.Closest.{adjust_pkt_num-recovers}

-- The cases of `test_ngtcp2_pkt_adjust_pkt_num` in Polygon/tests/ngtcp2_pkt_test.c.
adjust_16 : adjust_pkt_num 0xaa82f30e 0x1f94 16 ≡ 0xaa831f94
unfolding adjust_pkt_num distance
adjust_16 = refl

-- 0xff is closer to 0x101 than 0x1ff is.
adjust_8 : adjust_pkt_num 0x100 0xff 8 ≡ 0x1ff
unfolding adjust_pkt_num distance
adjust_8 = refl

adjust_last : adjust_pkt_num (2 ^ 64 - 1) 0xab 8 ≡ 0xffffffffffffffab
unfolding adjust_pkt_num distance
adjust_last = refl

near_101 : distance (suc 0x100) 0xff + distance (suc 0x100) 0xff < 2 ^ 8
unfolding distance
near_101 = omega arith

adjust_pkt_num-recovers_example :
    adjust_pkt_num 0x100 (0xff % 2 ^ 8) 8
    ≡ (if ltb 0xff (suc 0x100 / 2 ^ 8 * 2 ^ 8) then 0xff + 2 ^ 8 else 0xff)
adjust_pkt_num-recovers_example =
    adjust_pkt_num-recovers 0x100 0xff 8 (omega arith) (omega arith) near_101
