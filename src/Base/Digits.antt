-- ===== src/Base/Digits.antt =====
-- `|` that puts low bits into their place, and `&` with a mask of low bits, at every width.
use Prim.Native.Nat.{
  ℕ, zero, suc, ◌+◌, ◌-◌, ◌*◌, ◌/◌, ◌%◌, ◌^◌, ◌≤◌, ◌<◌, min, max, bit_and, bit_or, digits,
  bit_and-bitwise, bit_or-bitwise,
}
use mathlib.Core.Path.{◌≡◌, refl, ap, ◌∙◌}
use native.Mathlib.Omega.{arith}
use native.Mathlib.Nat.{pow-suc, div-add-mod', div-div-eq-div-mul}

module _ (z : ℕ → ℕ) (f : ℕ → ℕ → ℕ) where
  -- Fuel beyond the value of the first number changes nothing.
  enough_digits : (a b n m : ℕ) → (a ≤ n) × (a ≤ m) → digits z f n a b ≡ digits z f m a b
  enough_digits zero b zero zero fits = refl
  enough_digits zero b zero (suc m) fits = refl
  enough_digits zero b (suc n) zero fits = refl
  enough_digits zero b (suc n) (suc m) fits = refl
  enough_digits (suc a) b zero m fits = absurd (omega arith)
  enough_digits (suc a) b (suc n) zero fits = absurd (omega arith)
  enough_digits (suc a) b (suc n) (suc m) fits =
      let below = enough_digits (suc a / 2) (b / 2) n m (omega arith) in omega (arith, below)

zero-bit_or : (b : ℕ) → bit_or 0 b ≡ b
zero-bit_or b = bit_or-bitwise 0 b

-- `|` one binary digit at a time.
bit_or-digit : (a b : ℕ) → bit_or a b ≡ bit_or (a / 2) (b / 2) * 2 + max (a % 2) (b % 2)
bit_or-digit zero b = omega (arith, zero-bit_or b, zero-bit_or (b / 2))
bit_or-digit (suc a) b = omega (
  arith,
  bit_or-bitwise (suc a) b,
  bit_or-bitwise (suc a / 2) (b / 2),
  enough_digits (λ c. c) max (suc a / 2) (b / 2) a (suc a / 2) (omega arith),
)

-- `&` one binary digit at a time.
bit_and-digit : (a b : ℕ) → bit_and a b ≡ bit_and (a / 2) (b / 2) * 2 + min (a % 2) (b % 2)
bit_and-digit zero b = omega (arith, bit_and-bitwise 0 b, bit_and-bitwise 0 (b / 2))
bit_and-digit (suc a) b = omega (
  arith,
  bit_and-bitwise (suc a) b,
  bit_and-bitwise (suc a / 2) (b / 2),
  enough_digits (λ c. zero) min (suc a / 2) (b / 2) a (suc a / 2) (omega arith),
)

bit_or-zero_below : (n a : ℕ) → a ≤ n → bit_or a 0 ≡ a
bit_or-zero_below n zero h = zero-bit_or 0
bit_or-zero_below zero (suc a) h = absurd (omega arith)
bit_or-zero_below (suc n) (suc a) h =
    omega (arith, bit_or-digit (suc a) 0, bit_or-zero_below n (suc a / 2) (omega arith))

bit_or-double : (m r : ℕ) → bit_or m (r / 2) ≡ m + r / 2 → bit_or (m * 2) r ≡ m * 2 + r
bit_or-double m r h =
    let half : m * 2 / 2 ≡ m = omega arith in
    let even : m * 2 % 2 ≡ 0 = omega arith in ground (arith, bit_or-digit (m * 2) r)

-- Low bits put into the place a multiple of `2 ^ n` leaves free.
pub bit_or-add : (n q r : ℕ) → r < 2 ^ n → bit_or (q * 2 ^ n) r ≡ q * 2 ^ n + r
bit_or-add zero q r h =
    let whole : q * 2 ^ 0 ≡ q = omega arith in
    let none_left : r ≡ 0 = omega arith in ground (arith, bit_or-zero_below q q (omega arith))
bit_or-add (suc n) q r h =
    let double : q * 2 ^ suc n ≡ q * 2 ^ n * 2 = omega (arith, ap (λ x. q * x) (pow-suc 2 n)) in
    ground
      (arith, bit_or-double (q * 2 ^ n) r (bit_or-add n q (r / 2) (omega (arith, pow-suc 2 n))))

pub pow-pos : (n : ℕ) → 0 < 2 ^ n
pow-pos zero = omega arith
pow-pos (suc n) = omega (arith, pow-suc 2 n, pow-pos n)

bit_and-zero_below : (n a : ℕ) → a ≤ n → bit_and a 0 ≡ 0
bit_and-zero_below n zero h = bit_and-bitwise 0 0
bit_and-zero_below zero (suc a) h = absurd (omega arith)
bit_and-zero_below (suc n) (suc a) h =
    omega (arith, bit_and-digit (suc a) 0, bit_and-zero_below n (suc a / 2) (omega arith))

-- The lowest digit of a remainder by a power of two, and the digits above it.
mod-double : (x m : ℕ) → x % (m * 2) ≡ x / 2 % m * 2 + x % 2
mod-double x m =
    let turn : 2 * m ≡ m * 2 = omega arith in
    let e : x / 2 / m ≡ x / (m * 2) = div-div-eq-div-mul x 2 m ∙ ap (λ t. x / t) turn in
    omega (arith, div-add-mod' x (m * 2), div-add-mod' (x / 2) m, ap (λ t. t * m) e)

-- A mask of `n` ones takes the remainder by `2 ^ n`.
pub bit_and-mask : (n x : ℕ) → bit_and x (2 ^ n - 1) ≡ x % 2 ^ n
bit_and-mask zero x = omega (arith, bit_and-zero_below x x (omega arith))
bit_and-mask (suc n) x =
    let double : 2 ^ suc n ≡ 2 ^ n * 2 = pow-suc 2 n in
    let some_bit : 0 < 2 ^ n = pow-pos n in
    let half : (2 ^ suc n - 1) / 2 ≡ 2 ^ n - 1 = omega arith in
    let odd : (2 ^ suc n - 1) % 2 ≡ 1 = omega arith in
    ground (arith, bit_and-digit x (2 ^ suc n - 1), bit_and-mask n (x / 2), mod-double x (2 ^ n))
