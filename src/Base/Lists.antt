-- ===== src/Base/Lists.antt =====
-- Lists measured by native numbers, under the library's names, and predicates on all elements.
use Prim.Native.Nat.{ℕ, zero, suc, ◌+◌, ◌-◌, ◌≤◌, ◌<◌}
use mathlib.Core.Path.{◌≡◌, refl, ap}
use mathlib.Core.List.{List, [], ◌∷◌, ◌++◌}
use native.Mathlib.Omega.{arith}

abbrev pub All {ℓ κ} : {A : Type ℓ} → (A → Type κ) → List A → Type κ
All P [] = Unit
All P (x ∷ xs) = P x × All P xs

module _ {ℓ} {A : Type ℓ} where
  abbrev pub length : List A → ℕ
  length [] = 0
  length (x ∷ xs) = suc (length xs)

  abbrev pub take : ℕ → List A → List A
  take zero xs = []
  take (suc n) [] = []
  take (suc n) (x ∷ xs) = x ∷ take n xs

  abbrev pub drop : ℕ → List A → List A
  drop zero xs = xs
  drop (suc n) [] = []
  drop (suc n) (x ∷ xs) = drop n xs

  abbrev pub replicate : ℕ → A → List A
  replicate zero a = []
  replicate (suc n) a = a ∷ replicate n a

  pub length-append : (xs ys : List A) → length (xs ++ ys) ≡ length xs + length ys
  length-append [] ys = omega arith
  length-append (x ∷ xs) ys = omega (arith, length-append xs ys)

  pub length-replicate : (n : ℕ) (a : A) → length (replicate n a) ≡ n
  length-replicate zero a = refl
  length-replicate (suc n) a = ap suc (length-replicate n a)

  pub length-take : (n : ℕ) (xs : List A) → n ≤ length xs → length (take n xs) ≡ n
  length-take zero xs h = refl
  length-take (suc n) [] h = absurd (omega arith)
  length-take (suc n) (x ∷ xs) h = ap suc (length-take n xs (omega arith))

  pub length-drop : (n : ℕ) (xs : List A) → length (drop n xs) ≡ length xs - n
  length-drop zero xs = omega arith
  length-drop (suc n) [] = omega arith
  length-drop (suc n) (x ∷ xs) = omega (arith, length-drop n xs)

  pub take-length-append : (xs ys : List A) → take (length xs) (xs ++ ys) ≡ xs
  take-length-append [] ys = refl
  take-length-append (x ∷ xs) ys = ap (λ l. x ∷ l) (take-length-append xs ys)

  pub drop-length-append : (xs ys : List A) → drop (length xs) (xs ++ ys) ≡ ys
  drop-length-append [] ys = refl
  drop-length-append (x ∷ xs) ys = drop-length-append xs ys

module _ {ℓ κ} {A : Type ℓ} (P : A → Type κ) where
  pub All-append : (xs ys : List A) → All P xs → All P ys → All P (xs ++ ys)
  All-append [] ys hx hy = hy
  All-append (x ∷ xs) ys hx hy = (hx.0, All-append xs ys hx.1 hy)

  pub All-drop : (n : ℕ) (xs : List A) → All P xs → All P (drop n xs)
  All-drop zero xs h = h
  All-drop (suc n) [] h = h
  All-drop (suc n) (x ∷ xs) h = All-drop n xs h.1

module _ {ℓ} {A : Type ℓ} where
  drop-nil : (n : ℕ) → drop {A = A} n [] ≡ []
  drop-nil zero = refl
  drop-nil (suc n) = refl

  pub drop-drop : (n m : ℕ) (xs : List A) → drop (n + m) xs ≡ drop m (drop n xs)
  drop-drop zero m xs = let e : 0 + m ≡ m = omega arith in rw e
  drop-drop (suc n) m [] = rw (drop-nil (suc n + m), drop-nil m)
  drop-drop (suc n) m (x ∷ xs) =
      let e : suc n + m ≡ suc (n + m) = omega arith in rw e (drop-drop n m xs)

  pub take_ge : (n : ℕ) (xs : List A) → length xs ≤ n → take n xs ≡ xs
  take_ge zero [] h = refl
  take_ge (suc n) [] h = refl
  take_ge zero (x ∷ xs) h = absurd (omega arith)
  take_ge (suc n) (x ∷ xs) h = ap (λ l. x ∷ l) (take_ge n xs (omega arith))

module _ {ℓ} {A : Type ℓ} where
  -- The values of `f` at `n` places from `a` on.
  abbrev pub segment : (ℕ → A) → ℕ → ℕ → List A
  segment f a zero = []
  segment f a (suc n) = f a ∷ segment f (suc a) n

  pub length-segment : (f : ℕ → A) (a n : ℕ) → length (segment f a n) ≡ n
  length-segment f a zero = refl
  length-segment f a (suc n) = ap suc (length-segment f (suc a) n)

  pub segment-append :
      (f : ℕ → A) (a n m : ℕ) → segment f a n ++ segment f (a + n) m ≡ segment f a (n + m)
  segment-append f a zero m =
      let e1 : a + 0 ≡ a = omega arith in let e2 : 0 + m ≡ m = omega arith in rw (e1, e2) refl
  segment-append f a (suc n) m =
      let e1 : a + suc n ≡ suc a + n = omega arith in
      let e2 : suc n + m ≡ suc (n + m) = omega arith in
      rw (e1, e2) (ap (λ l. f a ∷ l) (segment-append f (suc a) n m))

  pub take-segment : (k : ℕ) (f : ℕ → A) (a n : ℕ) → k ≤ n → take k (segment f a n) ≡ segment f a k
  take-segment zero f a n h = refl
  take-segment (suc k) f a zero h = absurd (omega arith)
  take-segment (suc k) f a (suc n) h = ap (λ l. f a ∷ l) (take-segment k f (suc a) n (omega arith))

  pub drop-segment :
      (k : ℕ) (f : ℕ → A) (a n : ℕ) → k ≤ n → drop k (segment f a n) ≡ segment f (a + k) (n - k)
  drop-segment zero f a n h =
      let e1 : a + 0 ≡ a = omega arith in let e2 : n - 0 ≡ n = omega arith in rw (e1, e2) refl
  drop-segment (suc k) f a zero h = absurd (omega arith)
  drop-segment (suc k) f a (suc n) h =
      let e1 : a + suc k ≡ suc a + k = omega arith in
      let e2 : suc n - suc k ≡ n - k = omega arith in
      rw (e1, e2) (drop-segment k f (suc a) n (omega arith))

  pub segment-same :
      (f g : ℕ → A) (a b n : ℕ)
      → ((i : ℕ) → i < n → f (a + i) ≡ g (b + i))
      → segment f a n ≡ segment g b n
  segment-same f g a b zero same = refl
  segment-same f g a b (suc n) same =
      let e1 : a + 0 ≡ a = omega arith in
      let e2 : b + 0 ≡ b = omega arith in
      let first : f a ≡ g b = rw (e1, e2) at (same 0 (omega arith)) in
      let later : (i : ℕ) → i < n → f (suc a + i) ≡ g (suc b + i) = λ i h.
        let e3 : a + suc i ≡ suc a + i = omega arith in
        let e4 : b + suc i ≡ suc b + i = omega arith in
        rw (e3, e4) at (same (suc i) (omega arith)) in
      rw (first, segment-same f g (suc a) (suc b) n later) refl
