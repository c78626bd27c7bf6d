-- ===== src/Base/Gives.antt =====
-- A call that returns normally, and the rules by which its parts are taken one after the other.
use polygon.Base.Tests.{if◌then◌else◌}
use polygon.Base.Outcome.{Result, ok, ◌>>=◌}
use mathlib.Core.Path.{◌≡◌, refl}
use mathlib.Core.Bool.{Bool, true, false}

-- The value that the call returns satisfies `P`; it neither fails nor faults.
pub data Gives {ℓ κ} {A : Type ℓ} (P : A → Type κ) : Result A → Type (ℓ ⊔ κ) where
  gives : {a : A} → P a → Gives P (ok a)

module _ {ℓ κ} {A : Type ℓ} {P : A → Type κ} where
  pub Gives-value : {r : Result A} → Gives P r → (a : A) × (r ≡ ok a) × P a
  Gives-value (gives {a = a} p) = (a, refl, p)

  pub Gives-weaken {κ'} :
      {r : Result A} (Q : A → Type κ') → ((a : A) → P a → Q a) → Gives P r → Gives Q r
  Gives-weaken Q f (gives {a = a} p) = gives (f a p)

  pub Gives-cases :
      (b : Bool) {x y : Result A}
      → (b ≡ false → Gives P y)
      → (b ≡ true → Gives P x)
      → Gives P (if b then x else y)
  Gives-cases false on_false on_true = on_false refl
  Gives-cases true on_false on_true = on_true refl

  pub Gives->>= {κ' ℓ'} :
      {B : Type ℓ'} {Q : B → Type κ'} {r : Result A} {f : A → Result B}
      → Gives P r
      → ((a : A) → P a → Gives Q (f a))
      → Gives Q (r >>= f)
  Gives->>= (gives {a = a} p) k = k a p
