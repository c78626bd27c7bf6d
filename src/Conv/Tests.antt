-- ===== src/Conv/Tests.antt =====
-- Runs of ngtcp2_conv.c on small inputs.
use polygon.Base.{[], ◌∷◌, ok, ◌≡◌, refl, arith}
use polygon.Conv.{
  get_uint64, get_uint48, get_uint32, get_uint24, get_uint16, put_uint64be, put_uint48be,
  put_uint32be, put_uint24be, put_uint16be, cpymem, from_network, put_be, put_varint, get_varint,
  get_varint_len, deref,
}
use polygon.Conv.Words.{get_be}
use polygon.Conv.Words.{ReadsWord, all_widths-ReadsWord}
use polygon.Conv.Varint.{PutThenGet, get_varint-put_varint}

-- The examples of the QUIC draft.
put_15293 : put_varint 15293 ≡ ok (0x7b ∷ 0xbd ∷ [])
unfolding put_varint put_be
put_15293 = refl

get_494878333 : get_varint (0x9d ∷ 0x7f ∷ 0x3e ∷ 0x7d ∷ []) ≡ ok (494878333, 4)
unfolding get_varint get_varint_len deref get_be cpymem from_network
get_494878333 = refl

get_varint-put_varint_example : PutThenGet 15293 (0xff ∷ [])
get_varint-put_varint_example = get_varint-put_varint 15293 (0xff ∷ []) (omega arith)

all_widths-ReadsWord_example :
    ReadsWord get_uint64 put_uint64be 8 0xdeadbeef (1 ∷ [])
    × ReadsWord get_uint48 put_uint48be 6 0xdeadbeef (1 ∷ [])
    × ReadsWord get_uint32 put_uint32be 4 0xdeadbeef (1 ∷ [])
    × ReadsWord get_uint24 put_uint24be 3 0xdeadbeef (1 ∷ [])
    × ReadsWord get_uint16 put_uint16be 2 0xdeadbeef (1 ∷ [])
all_widths-ReadsWord_example = all_widths-ReadsWord 0xdeadbeef (1 ∷ [])
