-- ===== src/Conv/Reader.antt =====
-- A one-pass reading of the wire format, as a specification of the readers of ngtcp2_conv.c: each
-- parser gives the value at the front of the input and what follows it, or nothing if the input ends
-- too early. `VarintAt` says how the C readers behave in each of the two cases.
use polygon.Base.{
  ℕ, zero, suc, ◌+◌, ◌-◌, ◌*◌, ◌/◌, ◌%◌, ◌^◌, ◌≤◌, ◌<◌, List, [], ◌∷◌, ◌≡◌, refl, ap, arith, ok,
  length, drop, take, All, IsByte, Option, none, some, ltb-cases, inl, inr, ◌⊎◌,
}
use native.Mathlib.Nat.{pow-suc}
use polygon.Conv.{advance, cpymem}
use polygon.Conv.Words.{get_be}

abbrev pub Parser {ℓ} : Type ℓ → Type ℓ
Parser A = List ℕ → Option (A × List ℕ)

infixl 5 ◌>>=◌
abbrev pub ◌>>=◌ {ℓ κ} : {A : Type ℓ} {B : Type κ} → Parser A → (A → Parser B) → Parser B
◌>>=◌ m f p = elim (m p) [ none ↦ none | some (a, q) ↦ f a q ]

abbrev pub return {ℓ} : {A : Type ℓ} → A → Parser A
return a p = some (a, p)

-- `k` more bytes of a number in network byte order.
unfoldable pub parse_be : ℕ → ℕ → Parser ℕ
parse_be zero acc p = some (acc, p)
parse_be (suc k) acc [] = none
parse_be (suc k) acc (b ∷ p) = parse_be k (acc * 256 + b) p

-- The two top bits of the first byte are the base 2 logarithm of the length.
unfoldable pub parse_varint : Parser ℕ
parse_varint [] = none
parse_varint (b ∷ p) = parse_be (2 ^ (b / 64) - 1) (b % 64) p

-- `n` bytes as they are.
unfoldable pub parse_bytes : ℕ → Parser (List ℕ)
parse_bytes zero p = some ([], p)
parse_bytes (suc n) [] = none
parse_bytes (suc n) (b ∷ p) = (do bs ← parse_bytes n; return (b ∷ bs)) p

pub advance-eq : (n : ℕ) (p : List ℕ) → n ≤ length p → advance n p ≡ ok (drop n p)
unfolding advance
advance-eq zero p h = refl
advance-eq (suc n) [] h = absurd (omega arith)
advance-eq (suc n) (b ∷ p) h = advance-eq n p (omega arith)

pub cpymem-eq : (n : ℕ) (p : List ℕ) → n ≤ length p → cpymem n p ≡ ok (take n p)
unfolding cpymem
cpymem-eq zero p h = refl
cpymem-eq (suc n) [] h = absurd (omega arith)
cpymem-eq (suc n) (b ∷ p) h = rw (cpymem-eq n p (omega arith))

pub parse_bytes-eq :
    (n : ℕ) (p : List ℕ) → n ≤ length p → parse_bytes n p ≡ some (take n p, drop n p)
unfolding parse_bytes
parse_bytes-eq zero p h = refl
parse_bytes-eq (suc n) [] h = absurd (omega arith)
parse_bytes-eq (suc n) (b ∷ p) h = rw (parse_bytes-eq n p (omega arith))

pub parse_bytes_short : (n : ℕ) (p : List ℕ) → length p < n → parse_bytes n p ≡ none
unfolding parse_bytes
parse_bytes_short zero p h = absurd (omega arith)
parse_bytes_short (suc n) [] h = refl
parse_bytes_short (suc n) (b ∷ p) h = rw (parse_bytes_short n p (omega arith))

pub parse_be_short : (k acc : ℕ) (p : List ℕ) → length p < k → parse_be k acc p ≡ none
unfolding parse_be
parse_be_short zero acc p h = absurd (omega arith)
parse_be_short (suc k) acc [] h = refl
parse_be_short (suc k) acc (b ∷ p) h = parse_be_short k (acc * 256 + b) p (omega arith)

-- Where `k` bytes are there, the reader and the parser agree on a number below `bound * 256 ^ k`.
pub record BeAt (k acc : ℕ) (p : List ℕ) (bound : ℕ) : Type 0 where
  pub value : ℕ
  pub got : get_be k acc p ≡ ok value
  pub parsed : parse_be k acc p ≡ some (value, drop k p)
  pub small : value < bound * 256 ^ k

pub be_at :
    (k acc : ℕ) (p : List ℕ) (bound : ℕ)
    → k ≤ length p
    → All IsByte p
    → acc < bound
    → BeAt k acc p bound
unfolding get_be parse_be
be_at zero acc p bound h bytes hb = record {
  value = acc;
  got = refl;
  parsed = refl;
  small = omega arith;
}
be_at (suc k) acc [] bound h bytes hb = absurd (omega arith)
be_at (suc k) acc (b ∷ p) bound h (hb', bytes) hb =
    let r = be_at k (acc * 256 + b) p (bound * 256) (omega arith) bytes (omega arith) in
    record {
      value = r.value;
      got = r.got;
      parsed = r.parsed;
      small = omega (arith, r.small, ap (λ (t : ℕ). bound * t) (pow-suc 256 k));
    }

-- A number of fixed width at `p`: cut off, or read.
pub be_cases :
    (k : ℕ) (p : List ℕ)
    → All IsByte p
    → (length p < k) × (parse_be k 0 p ≡ none) ⊎ (k ≤ length p) × BeAt k 0 p 1
be_cases k p bytes = elim (ltb-cases (length p) k) [
  | inl (short, _) ↦ inl (short, parse_be_short k 0 p short)
  | inr (enough, _) ↦ inr (enough, be_at k 0 p 1 enough bytes (omega arith))
]

pub bytes_cases :
    (k : ℕ) (p : List ℕ)
    → (length p < k) × (parse_bytes k p ≡ none)
      ⊎ (k ≤ length p) × (parse_bytes k p ≡ some (take k p, drop k p))
bytes_cases k p = elim (ltb-cases (length p) k) [
  | inl (short, _) ↦ inl (short, parse_bytes_short k p short)
  | inr (enough, _) ↦ inr (enough, parse_bytes-eq k p enough)
]

-- A sequence of parsers succeeds only if each does.
pub >>=-eq-some {ℓ κ} :
    {A : Type ℓ} {B : Type κ} (m : Parser A) (f : A → Parser B) (p : List ℕ) {b : B × List ℕ}
    → (m >>= f) p ≡ some b
    → (a : A) × (q : List ℕ) × (m p ≡ some (a, q)) × (f a q ≡ some b)
>>=-eq-some {A} m f p {b} e = go (m p) refl
  where
    go :
        (o : Option (A × List ℕ))
        → m p ≡ o
        → (a : A) × (q : List ℕ) × (m p ≡ some (a, q)) × (f a q ≡ some b)
    go none h = absurd (ground arith)
    go (some (a, q)) h = (a, q, h, ground arith)
