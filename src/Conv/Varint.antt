-- ===== src/Conv/Varint.antt =====
-- The variable-length integers of ngtcp2_conv.c: lengths, bounds and the round trip.
use polygon.Base.{
  ℕ, suc, ◌+◌, ◌/◌, ◌%◌, ◌^◌, ◌≤◌, ◌<◌, bit_and, bit_or, List, [], ◌∷◌, ◌++◌, ◌≡◌, refl, ap, ◌∙◌,
  arith, ok, err, fault, length, All, IsByte, ltb-cases, inl, inr, ◌==◌, false,
}
use native.Mathlib.Nat.{div-add-mod}
use polygon.Base.Bits.{all_below, table}
use polygon.Conv.{
  put_be, or_first, get_masked, get_varint, varintlen_def, get_varint_len, put_varint,
  put_varint_len, deref,
}
use polygon.Conv.Words.{get_masked-eq, get_be-put_be_acc, length-put_be, put_be-IsByte}

-- The values that a variable-length integer can stand for, those up to NGTCP2_MAX_VARINT.
abbrev pub IsVarint : ℕ → Type 0
IsVarint n = n < 2 ^ 62

-- The encoding of `n` as a plain list: the top bits of the first byte give the length.
unfoldable pub varint : ℕ → List ℕ
unfolding or_first
varint n = elim (put_varint n) [ ok bs ↦ bs | err e ↦ [] | fault ↦ [] ]

pub put_varint-eq : (n : ℕ) → IsVarint n → put_varint n ≡ ok (varint n)
unfolding put_varint varint
put_varint-eq n h = ground arith

pub put_varint_len-eq : (n : ℕ) → IsVarint n → put_varint_len n ≡ ok (length (varint n))
unfolding put_varint_len put_varint varint put_be
put_varint_len-eq n h = ground arith

pub low_six : (b : ℕ) → b < 256 → bit_and b 0x3f ≡ b % 64
unfolding all_below
low_six = table 256 _ _ refl

or_40 : (b : ℕ) → b < 64 → bit_or b 0x40 ≡ b + 64
unfolding all_below
or_40 = table 64 _ _ refl

or_80 : (b : ℕ) → b < 64 → bit_or b 0x80 ≡ b + 128
unfolding all_below
or_80 = table 64 _ _ refl

or_c0 : (b : ℕ) → b < 64 → bit_or b 0xc0 ≡ b + 192
unfolding all_below
or_c0 = table 64 _ _ refl

-- Under a mark `c` in the two top bits of its first byte, a number of `k + 1` bytes is read back.
get_masked-put_be :
    (k c n : ℕ) (rest : List ℕ)
    → n / 256 ^ k < 64
    → c % 64 ≡ 0
    → c ≤ 192
    → get_masked (suc k) ((n / 256 ^ k + c) ∷ (put_be k n ++ rest)) ≡ ok n
get_masked-put_be k c n rest h hc hc' =
    let e : bit_and (n / 256 ^ k + c) 0x3f ≡ n / 256 ^ k =
      low_six (n / 256 ^ k + c) (omega arith) ∙ omega arith in
    rw
      (
        get_masked-eq k (n / 256 ^ k + c) (put_be k n ++ rest),
        e,
        get_be-put_be_acc k (n / 256 ^ k) n rest,
      )
      (ap ok (omega (arith, div-add-mod n (256 ^ k))))

-- The mark in the first byte of `varint n`, and the number of bytes behind it.
or_first-put_be :
    (mask k c n : ℕ)
    → ((b : ℕ) → b < 64 → bit_or b mask ≡ b + c)
    → n / 256 ^ k < 64
    → or_first mask (put_be (suc k) n) ≡ (n / 256 ^ k + c) ∷ put_be k n
unfolding or_first put_be
or_first-put_be mask k c n bits h =
    ap (λ b. b ∷ put_be k n) (ap (λ b. bit_or b mask) (omega arith) ∙ bits (n / 256 ^ k) h)

module _ (n : ℕ) where
  varint_one : n < 64 → varint n ≡ n ∷ []
  unfolding varint put_varint
  varint_one h = ground arith

  varint_two : 64 ≤ n → n < 16384 → varint n ≡ (n / 256 ^ 1 + 64) ∷ put_be 1 n
  unfolding varint put_varint
  varint_two h h' = ground (arith, or_first-put_be 0x40 1 64 n or_40 (omega arith))

  varint_four : 16384 ≤ n → n < 1073741824 → varint n ≡ (n / 256 ^ 3 + 128) ∷ put_be 3 n
  unfolding varint put_varint
  varint_four h h' = ground (arith, or_first-put_be 0x80 3 128 n or_80 (omega arith))

  varint_eight : 1073741824 ≤ n → IsVarint n → varint n ≡ (n / 256 ^ 7 + 192) ∷ put_be 7 n
  unfolding varint put_varint
  varint_eight h h' = ground (arith, or_first-put_be 0xc0 7 192 n or_c0 (omega arith))

-- The lengths that the marks stand for.
length_at_mark :
    (x : ℕ)
    → x < 64
    → (varintlen_def ((x + 64) / 64) ≡ 2)
      × (varintlen_def ((x + 128) / 64) ≡ 4)
      × (varintlen_def ((x + 192) / 64) ≡ 8)
      × (varintlen_def (x / 64) ≡ 1)
length_at_mark x h =
    let a : (x + 64) / 64 ≡ 1 = omega arith in
    let b : (x + 128) / 64 ≡ 2 = omega arith in
    let c : (x + 192) / 64 ≡ 3 = omega arith in
    let d : x / 64 ≡ 0 = omega arith in
    (ap varintlen_def a, ap varintlen_def b, ap varintlen_def c, ap varintlen_def d)

-- The two forms of an encoding: one byte, or a mark in the first of several.
data Form (n : ℕ) : Type 0 where
  one : n < 64 → varint n ≡ n ∷ [] → Form n
  more :
      (k c : ℕ)
      → n / 256 ^ suc k < 64
      → (c % 64 ≡ 0) × (c ≤ 192) × (suc (suc k) ≤ 8)
      → varintlen_def ((n / 256 ^ suc k + c) / 64) ≡ suc (suc k)
      → varint n ≡ (n / 256 ^ suc k + c) ∷ put_be (suc k) n
      → Form n

varint-Form : (n : ℕ) → IsVarint n → Form n
varint-Form n h = elim (ltb-cases n 64) [
  | inl (lt, _) ↦ one lt (varint_one n lt)
  | inr (ge, _) ↦ elim (ltb-cases n 16384) [
    | inl (lt, _) ↦
        let s : n / 256 ^ 1 < 64 = omega arith in
        more 0 64 s (omega arith) (length_at_mark _ s).0 (varint_two n ge lt)
    | inr (ge', _) ↦ elim (ltb-cases n 1073741824) [
      | inl (lt, _) ↦
          let s : n / 256 ^ 3 < 64 = omega arith in
          more 2 128 s (omega arith) (length_at_mark _ s).1 (varint_four n ge' lt)
      | inr (ge'', _) ↦
          let s : n / 256 ^ 7 < 64 = omega arith in
          more 6 192 s (omega arith) (length_at_mark _ s).2 (varint_eight n ge'' h)
    ]
  ]
]

-- What a reader finds at a number that `put_varint` wrote.
pub record ReadsBack (n : ℕ) (rest : List ℕ) : Type 0 where
  pub size : get_varint_len (varint n ++ rest) ≡ ok (length (varint n))
  pub value : get_varint (varint n ++ rest) ≡ ok (n, length (varint n))

two-ne-one : (k : ℕ) → (suc (suc k) == 1) ≡ false
two-ne-one k = ground arith

Form-ReadsBack : (n : ℕ) (rest : List ℕ) → Form n → ReadsBack n rest
unfolding get_varint get_varint_len deref
Form-ReadsBack n rest (one h e) = record {
  size = rw (e, (length_at_mark n h).3);
  value = rw (e, (length_at_mark n h).3);
}
Form-ReadsBack n rest (more k c h (hc, hc', _) len e) = record {
  size = rw (e, len, length-put_be (suc k) n);
  value =
      rw (
        e,
        len,
        length-put_be (suc k) n,
        get_masked-put_be (suc k) c n rest h hc hc',
        two-ne-one k,
      );
}

-- `get_varint` reads back what `put_varint` wrote, whatever follows it, and its length.
pub varint-ReadsBack : (n : ℕ) (rest : List ℕ) → IsVarint n → ReadsBack n rest
varint-ReadsBack n rest h = Form-ReadsBack n rest (varint-Form n h)

Form-IsByte : (n : ℕ) → Form n → All IsByte (varint n)
Form-IsByte n (one h e) = rw e (omega arith, tt)
Form-IsByte n (more k c h hc _ e) = rw e (omega arith, put_be-IsByte (suc k) n)

pub varint-IsByte : (n : ℕ) → IsVarint n → All IsByte (varint n)
varint-IsByte n h = Form-IsByte n (varint-Form n h)

Form-length : (n : ℕ) → Form n → (1 ≤ length (varint n)) × (length (varint n) ≤ 8)
Form-length n (one h e) = rw e (omega arith)
Form-length n (more k c h hc _ e) = rw e (omega (arith, length-put_be (suc k) n))

pub length-varint : (n : ℕ) → IsVarint n → (1 ≤ length (varint n)) × (length (varint n) ≤ 8)
length-varint n h = Form-length n (varint-Form n h)

-- `put_varint` writes `n`, its length is foretold, and it is read back with that length.
pub record PutThenGet (n : ℕ) (rest : List ℕ) : Type 0 where
  bytes : List ℕ
  put : put_varint n ≡ ok bytes
  len : put_varint_len n ≡ ok (length bytes)
  len_got : get_varint_len (bytes ++ rest) ≡ ok (length bytes)
  got : get_varint (bytes ++ rest) ≡ ok (n, length bytes)

-- A value below 2 ^ 62 is written by `ngtcp2_put_varint` in the number of bytes that
-- `ngtcp2_put_varint_len` says, and read back by `ngtcp2_get_varint` with that length, whatever bytes
-- follow it.
pub get_varint-put_varint : (n : ℕ) (rest : List ℕ) → IsVarint n → PutThenGet n rest
get_varint-put_varint n rest h =
    let r : ReadsBack n rest = varint-ReadsBack n rest h in
    record {
      bytes = varint n;
      put = put_varint-eq n h;
      len = put_varint_len-eq n h;
      len_got = r.size;
      got = r.value;
    }
