-- ===== src/Conv.antt =====
-- Polygon/lib/ngtcp2_conv.c and ngtcp2_str.c: integers in network byte order and the QUIC
-- variable-length integers. A pointer is the list of bytes from it to the end of its buffer: a read
-- past the end is a fault, and a function that writes at a pointer gives the bytes that it writes.
pub mod Words
pub mod Varint
pub mod Reader
pub mod Reads
mod Tests
use polygon.Base.{
  ℕ, zero, suc, ◌+◌, ◌-◌, ◌*◌, ◌/◌, ◌%◌, ◌^◌, bit_and, bit_or, List, [], ◌∷◌, ◌++◌, ltb, ◌==◌,
  if◌then◌else◌, Result, ok, err, fault, ◌>>=◌, ◌>>◌, assert, drop,
}

-- `p + n`, for a pointer that stays inside its buffer or just past its end.
unfoldable pub advance : ℕ → List ℕ → Result (List ℕ)
advance zero p = ok p
advance (suc n) [] = fault
advance (suc n) (b ∷ p) = advance n p

-- `*p`
unfoldable pub deref : List ℕ → Result ℕ
deref [] = fault
deref (b ∷ p) = ok b

-- `memcpy` of `n` bytes from `p`, as `ngtcp2_cpymem` makes it.
unfoldable pub cpymem : ℕ → List ℕ → Result (List ℕ)
cpymem zero p = ok []
cpymem (suc n) [] = fault
cpymem (suc n) (b ∷ p) = do bs ← cpymem n p; ok (b ∷ bs)

-- `bswap64`, `ntohl` or `ntohs` of the integer whose bytes in memory are these: the first becomes the highest.
-- `acc` stands for those in front.
unfoldable pub from_network : ℕ → List ℕ → ℕ
from_network acc [] = acc
from_network acc (b ∷ bytes) = from_network (acc * 256 + b) bytes

unfoldable pub get_uint64 : List ℕ → Result ℕ
get_uint64 p = do n ← cpymem 8 p; ok (from_network 0 n)

-- The bytes are copied behind the first two of an integer that is 0.
unfoldable pub get_uint48 : List ℕ → Result ℕ
get_uint48 p = do bytes ← cpymem 6 p; ok (from_network 0 (0 ∷ 0 ∷ bytes))

unfoldable pub get_uint32 : List ℕ → Result ℕ
get_uint32 p = do n ← cpymem 4 p; ok (from_network 0 n)

-- The bytes are copied behind the first one of an integer that is 0.
unfoldable pub get_uint24 : List ℕ → Result ℕ
get_uint24 p = do bytes ← cpymem 3 p; ok (from_network 0 (0 ∷ bytes))

unfoldable pub get_uint16 : List ℕ → Result ℕ
get_uint16 p = do n ← cpymem 2 p; ok (from_network 0 n)

-- The table is indexed by the two top bits of a byte, so by 3 at most.
abbrev varintlen_def : ℕ → ℕ
varintlen_def zero = 1
varintlen_def (suc zero) = 2
varintlen_def (suc (suc zero)) = 4
varintlen_def (suc (suc (suc n))) = 8

unfoldable pub get_varint_len : List ℕ → Result ℕ
get_varint_len p = do b ← deref p; ok (varintlen_def (b / 64))

-- `n.b[0] &= 0x3f` on the copied bytes.
pub mask_top : List ℕ → List ℕ
mask_top [] = []
mask_top (b ∷ bytes) = bit_and b 0x3f ∷ bytes

unfoldable pub get_masked : ℕ → List ℕ → Result ℕ
unfolding mask_top
get_masked k p = do bytes ← cpymem k p; ok (from_network 0 (mask_top bytes))

-- The value, and the length that goes through `plen`.
unfoldable pub get_varint : List ℕ → Result (ℕ × ℕ)
unfolding get_masked
get_varint p = do
  plen ← get_varint_len p
  v ← (if plen == 1 then deref p else get_masked plen p)
  ok (v, plen)

-- The bytes in memory of what `bswap64`, `htonl` or `htons` makes of `n`, an integer of `k` bytes.
unfoldable pub put_be : ℕ → ℕ → List ℕ
put_be zero n = []
put_be (suc k) n = (n / 256 ^ k % 256) ∷ put_be k n

abbrev pub put_uint64be : ℕ → List ℕ
put_uint64be n = put_be 8 n

-- All bytes but the first two are copied.
abbrev pub put_uint48be : ℕ → List ℕ
put_uint48be n = drop 2 (put_be 8 n)

abbrev pub put_uint32be : ℕ → List ℕ
put_uint32be n = put_be 4 n

-- All bytes but the first one are copied.
abbrev pub put_uint24be : ℕ → List ℕ
put_uint24be n = drop 1 (put_be 4 n)

abbrev pub put_uint16be : ℕ → List ℕ
put_uint16be n = put_be 2 n

-- `*p |= mask` at the first byte written.
or_first : ℕ → List ℕ → List ℕ
or_first mask [] = []
or_first mask (b ∷ bs) = bit_or b mask ∷ bs

unfoldable pub put_varint : ℕ → Result (List ℕ)
unfolding or_first
put_varint n =
    if ltb n 64
    then ok (n ∷ [])
    else if ltb n 16384
    then ok (or_first 0x40 (put_uint16be (n % 2 ^ 16)))
    else if ltb n 1073741824
    then ok (or_first 0x80 (put_uint32be (n % 2 ^ 32)))
    else do assert (ltb n 4611686018427387904); ok (or_first 0xc0 (put_uint64be n))

unfoldable pub put_varint_len : ℕ → Result ℕ
put_varint_len n =
    if ltb n 64
    then ok 1
    else if ltb n 16384
    then ok 2
    else if ltb n 1073741824
    then ok 4
    else do assert (ltb n 4611686018427387904); ok 8
