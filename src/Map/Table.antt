-- ===== src/Map/Table.antt =====
-- Tables: where the hash leads, and what `insert` leaves.
use polygon.Base.{
  ℕ, ◌+◌, ◌-◌, ◌%◌, ◌^◌, ◌≤◌, ◌<◌, true, false, if◌then◌else◌, ◌==◌, ◌∷◌, Option, none, some, ok,
  err, invalid_argument, ◌≡◌, ◌≢◌, ◌⊎◌, refl, ◌∙◌, sym, ap, arith, inl, inr, Bool-cases, bit_and,
}
use polygon.Base.Digits.{bit_and-mask, pow-pos}
use native.Mathlib.Nat.{pow-le-pow_right}
use polygon.Map.{Entry, Table, put_chain, find_in, insert, insert_at, hash, hash_bytes}
use polygon.Map.Chain.{or_else, or_else-none, IsDistinct}

-- Every slot that the hash leads to lies within a table whose length is a power of two.
pub hash-in_table : (k key tablelen : ℕ) → k ≤ 31 → tablelen ≡ 2 ^ k → hash key tablelen < tablelen
unfolding hash
hash-in_table k key tablelen hk e =
    let pos : 0 < 2 ^ k = pow-pos k in
    let bounded : 2 ^ k ≤ 2 ^ 31 = pow-le-pow_right (omega arith) hk in
    let x = hash_bytes 8 key 2166136261 in
    let mask : (tablelen + 2 ^ 32 - 1) % 2 ^ 32 ≡ 2 ^ k - 1 = omega arith in
    let low : bit_and x ((tablelen + 2 ^ 32 - 1) % 2 ^ 32) ≡ x % 2 ^ k =
      ap (bit_and x) mask ∙ bit_and-mask k x in
    omega (arith, low)

module _ {A : Type 0} where
  -- What a table holds under a key.
  abbrev pub held : Table A → ℕ → ℕ → Option (Entry A)
  held table tablelen key = find_in key (table (hash key tablelen))

  abbrev pub only : Entry A → ℕ → Option (Entry A)
  only e key = if e.key == key then some e else none

  pub record IsTable (table : Table A) (tablelen : ℕ) : Type 0 where
    pub distinct : (i : ℕ) → IsDistinct (table i)
    -- a key stands in the chain that its hash leads to
    pub at_home : (i key : ℕ) → hash key tablelen ≢ i → find_in key (table i) ≡ none

  -- `insert` where there is no entry with the key, and where there is one.
  pub insert_new :
      (table : Table A) (tablelen : ℕ) (e : Entry A)
      → held table tablelen e.key ≡ none
      → insert table tablelen e
        ≡ (put_chain table (hash e.key tablelen) (e ∷ table (hash e.key tablelen)), ok tt)
  unfolding insert
  insert_new table tablelen e h = ap (insert_at table (hash e.key tablelen) e) h

  pub insert_old :
      (table : Table A) (tablelen : ℕ) (e p : Entry A)
      → held table tablelen e.key ≡ some p
      → insert table tablelen e ≡ (table, err invalid_argument)
  unfolding insert
  insert_old table tablelen e p h = ap (insert_at table (hash e.key tablelen) e) h

  pub held-put_chain :
      (table : Table A) (tablelen : ℕ) (e : Entry A) (key : ℕ)
      → held table tablelen e.key ≡ none
      → held (put_chain table (hash e.key tablelen) (e ∷ table (hash e.key tablelen))) tablelen key
        ≡ or_else (held table tablelen key) (only e key)
  unfolding put_chain find_in
  held-put_chain table tablelen e key h = elim (Bool-cases (e.key == key)) [
    | inl same ↦
        let at : key ≡ e.key = ground (arith, same) in
        let here : (hash e.key tablelen == hash e.key tablelen) ≡ true = ground arith in
        let first : (e.key == e.key) ≡ true = ground arith in rw (at, here, first, h) refl
    | inr other ↦ elim (Bool-cases (hash key tablelen == hash e.key tablelen)) [
      | inl here ↦
          let chain : hash e.key tablelen ≡ hash key tablelen = ground (arith, here) in
          rw (here, other, or_else-none (held table tablelen key), chain) refl
      | inr away ↦ rw (away, other) (sym (or_else-none (held table tablelen key)))
    ]
  ]

  held_already :
      (table : Table A) (tablelen : ℕ) (e p : Entry A) (key : ℕ)
      → held table tablelen e.key ≡ some p
      → held table tablelen key ≡ or_else (held table tablelen key) (only e key)
  held_already table tablelen e p key h = elim (Bool-cases (e.key == key)) [
    | inl same ↦ let at : key ≡ e.key = ground (arith, same) in rw (at, h) refl
    | inr other ↦ rw other (sym (or_else-none (held table tablelen key)))
  ]

  pub found-cases : (r : Option (Entry A)) → (r ≡ none) ⊎ ((p : Entry A) × (r ≡ some p))
  found-cases none = inl refl
  found-cases (some p) = inr (p, refl)

  -- An entry that is there stays.
  pub held-insert :
      (table : Table A) (tablelen : ℕ) (e : Entry A) (key : ℕ)
      → held (insert table tablelen e).0 tablelen key
        ≡ or_else (held table tablelen key) (only e key)
  held-insert table tablelen e key =
      let r = held table tablelen e.key in
      elim (found-cases r) [
        | inl h ↦ rw (insert_new table tablelen e h) (held-put_chain table tablelen e key h)
        | inr (p, h) ↦ rw (insert_old table tablelen e p h) (held_already table tablelen e p key h)
      ]

  not_at_home :
      (e : Entry A) (key tablelen i : ℕ)
      → i ≡ hash e.key tablelen
      → hash key tablelen ≢ i
      → (e.key == key) ≡ false
  not_at_home e key tablelen i same n = elim (Bool-cases (e.key == key)) [
    | inl eq ↦
        let at : e.key ≡ key = ground (arith, eq) in
        absurd (n (ap (λ k. hash k tablelen) (sym at) ∙ sym same))
    | inr other ↦ other
  ]

  pub put_chain-IsTable :
      (table : Table A) (tablelen : ℕ) (e : Entry A)
      → held table tablelen e.key ≡ none
      → IsTable table tablelen
      → IsTable (put_chain table (hash e.key tablelen) (e ∷ table (hash e.key tablelen))) tablelen
  unfolding put_chain find_in IsDistinct
  put_chain-IsTable table tablelen e h v =
      let home = hash e.key tablelen in
      record {
        distinct = λ i. elim (Bool-cases (i == home)) [
          | inl at ↦ rw at (h, v.distinct home)
          | inr away ↦ rw away (v.distinct i)
        ];
        at_home = λ i key n. elim (Bool-cases (i == home)) [
          | inl at ↦
              let same : i ≡ home = ground (arith, at) in
              let other : (e.key == key) ≡ false = not_at_home e key tablelen i same n in
              rw (at, other) (rw same at (v.at_home i key n))
          | inr away ↦ rw away (v.at_home i key n)
        ];
      }

  pub insert-IsTable :
      (table : Table A) (tablelen : ℕ) (e : Entry A)
      → IsTable table tablelen
      → IsTable (insert table tablelen e).0 tablelen
  insert-IsTable table tablelen e v = elim (found-cases (held table tablelen e.key)) [
    | inl h ↦ rw (insert_new table tablelen e h) (put_chain-IsTable table tablelen e h v)
    | inr (p, h) ↦ rw (insert_old table tablelen e p h) v
  ]
