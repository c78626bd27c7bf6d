-- ===== src/Conv/Reads.antt =====
-- The C readers of variable-length integers follow the one-pass parsers: at any bytes they find a whole
-- integer, or one that is cut off.
use polygon.Base.{
  ℕ, suc, ◌-◌, ◌*◌, ◌/◌, ◌%◌, ◌^◌, ◌≤◌, ◌<◌, List, [], ◌∷◌, ◌++◌, ◌≡◌, refl, arith, ok, length,
  drop, All, IsByte, none, some, ltb-cases, inl, inr, ◌==◌, false, All-append, length-append,
  drop-length-append,
}
use polygon.Conv.{get_varint, get_varint_len, varintlen_def, deref, put_be}
use polygon.Conv.Words.{get_masked-eq, get_be-put_be_acc, length-put_be, put_be-IsByte}
use polygon.Conv.Varint.{
  low_six, IsVarint, varint, ReadsBack, varint-ReadsBack, length-varint, varint-IsByte,
}
use polygon.Conv.Reader.{parse_be, parse_varint, parse_bytes, BeAt, be_at, parse_be_short}

-- What the readers do at `p`, which holds no whole variable-length integer or one of `n` bytes.
pub data VarintAt (p : List ℕ) : Type 0 where
  missing : length p ≡ 0 → parse_varint p ≡ none → VarintAt p
  cut :
      (n : ℕ)
      → get_varint_len p ≡ ok n
      → 1 ≤ length p
      → length p < n
      → n ≤ 8
      → parse_varint p ≡ none
      → VarintAt p
  whole :
      (n v : ℕ)
      → get_varint_len p ≡ ok n
      → get_varint p ≡ ok (v, n)
      → parse_varint p ≡ some (v, drop n p)
      → 1 ≤ n
      → n ≤ 8
      → n ≤ length p
      → IsVarint v
      → VarintAt p

single_at : (b : ℕ) (p : List ℕ) → b < 64 → VarintAt (b ∷ p)
unfolding get_varint get_varint_len deref parse_varint parse_be
single_at b p h =
    let e : b / 64 ≡ 0 = omega arith in
    let e' : b % 64 ≡ b = omega arith in
    whole 1 b (rw e) (rw e) (rw (e, e')) (omega arith) (omega arith) (omega arith) (omega arith)

-- A byte `b` whose two top bits stand for `suc k` more bytes.
record Marks (k j b : ℕ) : Type 0 where
  top : b / 64 ≡ suc j
  len : varintlen_def (suc j) ≡ suc (suc k)
  size : 2 ^ suc j - 1 ≡ suc k
  few : suc k ≤ 7
  fits : 64 * 256 ^ suc k ≤ 2 ^ 62

marked_whole :
    (k j b : ℕ) (p : List ℕ)
    → Marks k j b
    → IsByte b
    → suc k ≤ length p
    → BeAt (suc k) (b % 64) p 64
    → VarintAt (b ∷ p)
unfolding get_varint get_varint_len deref parse_varint
marked_whole k j b p m hb enough r =
    let two : (suc (suc k) == 1) ≡ false = ground arith in
    whole (suc (suc k)) r.value (rw (m.top, m.len))
      (rw (m.top, m.len, two, get_masked-eq (suc k) b p, low_six b hb, r.got))
      (rw (m.top, m.size, r.parsed)) (omega arith) (omega (arith, m.few)) (omega arith)
      (omega (arith, r.small, m.fits))

marked_at : (k j b : ℕ) (p : List ℕ) → Marks k j b → IsByte b → All IsByte p → VarintAt (b ∷ p)
unfolding get_varint_len deref parse_varint
marked_at k j b p m hb bytes = elim (ltb-cases (length p) (suc k)) [
  | inl (short, _) ↦
      cut (suc (suc k)) (rw (m.top, m.len)) (omega arith) (omega arith) (omega (arith, m.few))
        (rw (m.top, m.size) (parse_be_short (suc k) (b % 64) p short))
  | inr (enough, _) ↦
      marked_whole k j b p m hb enough (be_at (suc k) (b % 64) p 64 enough bytes (omega arith))
]

marks :
    (k j b : ℕ)
    → b / 64 ≡ suc j
    → (varintlen_def (suc j) ≡ suc (suc k)) × (2 ^ suc j - 1 ≡ suc k)
    → (suc k ≤ 7) × (64 * 256 ^ suc k ≤ 2 ^ 62)
    → Marks k j b
marks k j b e (len, size) (few, fits) = record {
  top = e;
  len = len;
  size = size;
  few = few;
  fits = fits;
}

-- At any bytes, one of the three cases holds.
pub varint_at : (p : List ℕ) → All IsByte p → VarintAt p
varint_at [] h = unfold parse_varint in missing refl refl
varint_at (b ∷ p) (hb, h) = elim (ltb-cases b 64) [
  | inl (lt, _) ↦ single_at b p lt
  | inr (ge, _) ↦ elim (ltb-cases b 128) [
    | inl (lt, _) ↦ marked_at 0 0 b p (marks 0 0 b (omega arith) (refl, refl) (omega arith)) hb h
    | inr (ge', _) ↦ elim (ltb-cases b 192) [
      | inl (lt, _) ↦ marked_at 2 1 b p (marks 2 1 b (omega arith) (refl, refl) (omega arith)) hb h
      | inr (ge'', _) ↦
          marked_at 6 2 b p (marks 6 2 b (omega arith) (refl, refl) (omega arith)) hb h
    ]
  ]
]

-- What `put_varint` wrote is parsed back, whatever bytes follow it.
pub parse_varint-varint :
    (n : ℕ) (rest : List ℕ)
    → IsVarint n
    → All IsByte rest
    → parse_varint (varint n ++ rest) ≡ some (n, rest)
parse_varint-varint n rest h bytes =
    go (varint_at (varint n ++ rest) (All-append IsByte (varint n) rest (varint-IsByte n h) bytes))
  where
    back : ReadsBack n rest
    back = varint-ReadsBack n rest h

    go : VarintAt (varint n ++ rest) → parse_varint (varint n ++ rest) ≡ some (n, rest)
    go (missing e _) = absurd (omega (arith, length-append (varint n) rest, length-varint n h))
    go (cut m e _ short _ _) = absurd (ground (arith, back.size, e, length-append (varint n) rest))
    go (whole m v _ e parsed _ _ _ _) =
        ground (arith, back.value, e, parsed, drop-length-append (varint n) rest)

-- So is a number of fixed width.
pub parse_be-put_be :
    (k n : ℕ) (rest : List ℕ)
    → All IsByte rest
    → parse_be k 0 (put_be k n ++ rest) ≡ some (n % 256 ^ k, rest)
parse_be-put_be k n rest bytes = go (
    be_at k 0 (put_be k n ++ rest) 1
      (omega (arith, length-append (put_be k n) rest, length-put_be k n))
      (All-append IsByte (put_be k n) rest (put_be-IsByte k n) bytes) (omega arith))
  where
    go :
        BeAt k 0 (put_be k n ++ rest) 1
        → parse_be k 0 (put_be k n ++ rest) ≡ some (n % 256 ^ k, rest)
    go r = ground (
      arith,
      r.got,
      r.parsed,
      get_be-put_be_acc k 0 n rest,
      drop-length-append (put_be k n) rest,
      length-put_be k n,
    )

pub parse_bytes-append : (bs rest : List ℕ) → parse_bytes (length bs) (bs ++ rest) ≡ some (bs, rest)
unfolding parse_bytes
parse_bytes-append [] rest = refl
parse_bytes-append (b ∷ bs) rest = rw (parse_bytes-append bs rest)
