-- ===== src/Base/Bits.antt =====
-- Masks on one byte as arithmetic, each checked on the table of its values.
use Prim.Native.Nat.{ℕ, zero, suc, ◌<◌}
use mathlib.Core.Path.{◌≡◌}
use mathlib.Core.Bool.{Bool, true, ◌&&◌}
use native.Mathlib.Omega.{arith}
use polygon.Base.Tests.{◌==◌, ==_iff}

unfoldable pub all_below : ℕ → (ℕ → Bool) → Bool
all_below zero test = true
all_below (suc last) test = test last && all_below last test

below_true : (test : ℕ → Bool) (n x : ℕ) → x < n → all_below n test ≡ true → test x ≡ true
unfolding all_below
below_true test zero x lt h = absurd (omega arith)
below_true test (suc last) x lt h = ground (arith, below_true test last x)

-- Two functions that agree on a table of their first values agree at each of them.
pub table :
    (n : ℕ) (f g : ℕ → ℕ) → all_below n (λ x. f x == g x) ≡ true → (x : ℕ) → x < n → f x ≡ g x
table n f g t x h = (==_iff _ _).0 (below_true (λ y. f y == g y) n x h t)

-- A test that holds of a table of its first values holds at each of them.
pub table_true : (n : ℕ) (f : ℕ → Bool) → all_below n f ≡ true → (x : ℕ) → x < n → f x ≡ true
table_true n f t x h = below_true f n x h t
