-- ===== src/Map/Chain.antt =====
-- Chains: finding and removing in one of them.
use polygon.Base.{
  ℕ, true, false, if◌then◌else◌, ◌==◌, List, [], ◌∷◌, Option, none, some, ◌≡◌, refl, ◌∙◌, arith,
  inl, inr, Bool-cases,
}
use polygon.Map.{Entry, find_in, remove_from}

module _ {A : Type 0} where
  -- The first of two, if it is there.
  abbrev pub or_else : Option (Entry A) → Option (Entry A) → Option (Entry A)
  or_else none b = b
  or_else (some a) b = some a

  pub or_else_assoc : (a b c : Option (Entry A)) → or_else (or_else a b) c ≡ or_else a (or_else b c)
  or_else_assoc none b c = refl
  or_else_assoc (some a) b c = refl

  pub or_else-none : (a : Option (Entry A)) → or_else a none ≡ a
  or_else-none none = refl
  or_else-none (some a) = refl

  -- No two entries of the chain have the same key.
  unfoldable pub IsDistinct : List (Entry A) → Type 0
  IsDistinct [] = Unit {0}
  IsDistinct (e ∷ chain) = (find_in e.key chain ≡ none) × IsDistinct chain

  abbrev pub WithoutFirst : ℕ → List (Entry A) → Option (List (Entry A)) → Type 0
  WithoutFirst key chain none = find_in key chain ≡ none
  WithoutFirst key chain (some left) =
      ((k : ℕ) → find_in k left ≡ (if k == key then none else find_in k chain)) × IsDistinct left

  key_kept :
      (key k : ℕ) (e : Entry A) (chain left : List (Entry A))
      → (e.key == key) ≡ false
      → find_in k left ≡ (if k == key then none else find_in k chain)
      → find_in k (e ∷ left) ≡ (if k == key then none else find_in k (e ∷ chain))
  unfolding find_in
  key_kept key k e chain left other h = elim (Bool-cases (e.key == k)) [
    | inl e1 ↦ let apart : (k == key) ≡ false = ground (arith, other, e1) in rw (e1, apart) refl
    | inr e1 ↦ rw (e1, h) refl
  ]

  key_gone :
      (key k : ℕ) (e : Entry A) (chain : List (Entry A))
      → (e.key == key) ≡ true
      → find_in e.key chain ≡ none
      → find_in k chain ≡ (if k == key then none else find_in k (e ∷ chain))
  unfolding find_in
  key_gone key k e chain same h = elim (Bool-cases (k == key)) [
    | inl e1 ↦ let at : k ≡ e.key = ground (arith, same, e1) in rw (e1, at) h
    | inr e1 ↦ let apart : (e.key == k) ≡ false = ground (arith, same, e1) in rw (e1, apart) refl
  ]

  abbrev keep_first : Entry A → Option (List (Entry A)) → Option (List (Entry A))
  keep_first e none = none
  keep_first e (some left) = some (e ∷ left)

  further-WithoutFirst :
      (key : ℕ) (e : Entry A) (chain : List (Entry A)) (r : Option (List (Entry A)))
      → (e.key == key) ≡ false
      → find_in e.key chain ≡ none
      → WithoutFirst key chain r
      → WithoutFirst key (e ∷ chain) (keep_first e r)
  unfolding IsDistinct
  further-WithoutFirst key e chain none other h w = unfold find_in in rw (other, w) refl
  further-WithoutFirst key e chain (some left) other h (found, distinct) = (
    (λ k. key_kept key k e chain left other (found k)),
    (found e.key ∙ rw (other, h) refl, distinct),
  )

  remove_step :
      (key : ℕ) (e : Entry A) (chain : List (Entry A))
      → (e.key == key) ≡ false
      → remove_from key (e ∷ chain) ≡ keep_first e (remove_from key chain)
  unfolding remove_from
  remove_step key e chain other =
      rw other (elim (remove_from key chain) [ none ↦ refl | some left ↦ refl ])

  -- The chain loses the one entry with the key, or has none.
  pub remove_from-WithoutFirst :
      (key : ℕ) (chain : List (Entry A))
      → IsDistinct chain
      → WithoutFirst key chain (remove_from key chain)
  unfolding IsDistinct
  remove_from-WithoutFirst key [] h = unfold find_in remove_from in refl
  remove_from-WithoutFirst key (e ∷ chain) (h, distinct) =
      let rest = remove_from-WithoutFirst key chain distinct in
      elim (Bool-cases (e.key == key)) [
        | inl same ↦
            let found : remove_from key (e ∷ chain) ≡ some chain =
              unfold remove_from in rw same refl in
            rw found ((λ k. key_gone key k e chain same h), distinct)
        | inr other ↦
            rw (remove_step key e chain other)
              (further-WithoutFirst key e chain (remove_from key chain) other h rest)
      ]

  pub remove_from-none :
      (key : ℕ) (chain : List (Entry A)) → find_in key chain ≡ none → remove_from key chain ≡ none
  unfolding find_in
  remove_from-none key [] h = unfold remove_from in refl
  remove_from-none key (e ∷ chain) h = elim (Bool-cases (e.key == key)) [
    | inl same ↦ absurd (ground (arith, rw same at h))
    | inr other ↦
        rw (remove_step key e chain other, remove_from-none key chain (rw other at h)) refl
  ]
