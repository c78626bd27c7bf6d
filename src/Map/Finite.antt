-- ===== src/Map/Finite.antt =====
-- The table of ngtcp2_map.c as a finite map from keys to entries.
use polygon.Base.{
  ℕ, suc, ◌+◌, ◌-◌, ◌*◌, ◌%◌, ◌^◌, ◌≤◌, ◌<◌, Bool, true, false, if◌then◌else◌, ltb, ◌==◌, List, ◌∷◌,
  Option, none, some, Result, ok, err, invalid_argument, nomem, ◌≡◌, ◌≢◌, refl, ◌∙◌, sym, ap, arith,
  inl, inr, Bool-cases,
}
use native.Mathlib.Nat.{pow-suc}
use polygon.Map.{
  Entry, Map, empty_table, put_chain, find_in, insert_into, resize, map_insert, map_find,
  remove_from, after_remove, map_remove, move_slots, hash,
}
use polygon.Map.Chain.{
  or_else, or_else-none, WithoutFirst, remove_from-WithoutFirst, remove_from-none,
}
use polygon.Map.Table.{
  held, only, IsTable, insert_new, insert_old, held-put_chain, put_chain-IsTable, found-cases,
  hash-in_table,
}
use polygon.Map.Resize.{move_slots-held}

module _ {A : Type 0} where
  -- The table is in order, and its length is a power of two that fits.
  pub record IsMap (map : Map A) : Type 0 where
    pub bits : ℕ
    pub fits : bits ≤ 31
    pub length : map.tablelen ≡ 2 ^ bits
    pub table : IsTable map.table map.tablelen

  -- What `ngtcp2_map_insert` leaves.
  pub data Inserted (memory : Bool) (map : Map A) (e : Entry A)
      : Map A × Result (Unit {0}) → Type 0 where
    inserted :
        (left : Map A)
        → IsMap left
        → map_find map e.key ≡ none
        → ((key : ℕ) → map_find left key ≡ (if e.key == key then some e else map_find map key))
        → Inserted memory map e (left, ok tt)
    known :
        (left : Map A) (p : Entry A)
        → IsMap left
        → map_find map e.key ≡ some p
        → ((key : ℕ) → map_find left key ≡ map_find map key)
        → Inserted memory map e (left, err invalid_argument)
    no_memory : memory ≡ false → Inserted memory map e (map, err nomem)

  -- The new entry hides nothing.
  new_first :
      (now was : ℕ → Option (Entry A)) (e : Entry A) (key : ℕ)
      → now e.key ≡ none
      → ((k : ℕ) → now k ≡ was k)
      → or_else (now key) (only e key) ≡ (if e.key == key then some e else was key)
  new_first now was e key h same = elim (Bool-cases (e.key == key)) [
    | inl at ↦ let there : key ≡ e.key = ground (arith, at) in rw (at, there, h) refl
    | inr away ↦ rw (away, same key) (or_else-none (was key))
  ]

  insert_into-Inserted :
      (memory : Bool) (map was : Map A) (e : Entry A)
      → IsMap map
      → ((key : ℕ) → map_find map key ≡ map_find was key)
      → Inserted memory was e (insert_into map e)
  unfolding insert_into map_find
  insert_into-Inserted memory map was e v same =
      elim (found-cases (held map.table map.tablelen e.key)) [
        | inl h ↦
            let home = hash e.key map.tablelen in
            let left : Map A = record map {
              table = put_chain map.table home (e ∷ map.table home);
              size = (map.size + 1) % 2 ^ 64;
            } in
            rw (insert_new map.table map.tablelen e h) (
              inserted left
                (record {
                  bits = v.bits;
                  fits = v.fits;
                  length = v.length;
                  table = put_chain-IsTable map.table map.tablelen e h v.table;
                })
                (sym (same e.key) ∙ h)
                (λ key.
                  held-put_chain map.table map.tablelen e key h
                  ∙ new_first (held map.table map.tablelen) (held was.table was.tablelen) e key h
                      same))
        | inr (p, h) ↦
            rw (insert_old map.table map.tablelen e p h) (known map p v (sym (same e.key) ∙ h) same)
      ]

  in_table : (map : Map A) → IsMap map → (key : ℕ) → hash key map.tablelen < map.tablelen
  in_table map v key = hash-in_table v.bits key map.tablelen v.fits v.length

  -- The table after `resize` to twice its length.
  abbrev wider : Map A → Map A
  wider map = record map {
    table = move_slots (map.tablelen * 2 % 2 ^ 32) map.table map.tablelen 0 empty_table;
    tablelen = map.tablelen * 2 % 2 ^ 32;
  }

  wider-IsMap :
      (map : Map A)
      → IsMap map
      → map.tablelen < 2 ^ 31
      → IsMap (wider map) × ((key : ℕ) → map_find (wider map) key ≡ map_find map key)
  unfolding map_find
  wider-IsMap map v small =
      let (table, same) =
        move_slots-held map.table map.tablelen (map.tablelen * 2 % 2 ^ 32) v.table
          (in_table map v) in
      let double : 2 ^ suc v.bits ≡ 2 ^ v.bits * 2 = pow-suc 2 v.bits in
      let length = v.length in
      let fits = v.fits in
      let most : 2 ^ 31 ≡ 2147483648 = refl in
      let below : v.bits ≢ 31 = λ e. absurd (omega (arith, small, length, ap (λ k. 2 ^ k) e)) in
      (record { bits = suc v.bits; fits = omega arith; length = omega arith; table = table }, same)

  -- Inserting into a table of fewer than 2 ^ 31 slots, whether it is enlarged or not: an entry whose key is new is
  -- added and nothing else changes; an entry whose key is there, or that there is no memory for, is refused, and what
  -- the map holds stays.
  pub map_insert-Inserted :
      (memory : Bool) (map : Map A) (e : Entry A)
      → IsMap map
      → map.tablelen < 2 ^ 31
      → Inserted memory map e (map_insert memory map e)
  unfolding map_insert resize
  map_insert-Inserted memory map e v small =
      let full = ltb (map.tablelen * 3 % 2 ^ 32) ((map.size + 1) * 4 % 2 ^ 64) in
      elim (Bool-cases full) [
        | inr room ↦ rw room (insert_into-Inserted memory map map e v (λ key. refl))
        | inl none_left ↦ elim (Bool-cases memory) [
          | inl given ↦
              let (v', same) = wider-IsMap map v small in
              rw (none_left, given) (insert_into-Inserted true (wider map) map e v' same)
          | inr refused ↦ rw (none_left, refused) (no_memory refl)
        ]
      ]

  -- What `ngtcp2_map_remove` leaves.
  pub data Removed (map : Map A) (key : ℕ) : Map A × Result (Unit {0}) → Type 0 where
    taken :
        (left : Map A) (e : Entry A)
        → IsMap left
        → map_find map key ≡ some e
        → ((k : ℕ) → map_find left k ≡ (if k == key then none else map_find map k))
        → Removed map key (left, ok tt)
    unknown : map_find map key ≡ none → Removed map key (map, err invalid_argument)

  either_none : (b : Bool) → Path (Option (Entry A)) (if b then none else none) none
  either_none true = refl
  either_none false = refl

  remove-IsMap :
      (map : Map A) (key : ℕ) (left : List (Entry A)) (size : ℕ)
      → IsMap map
      → WithoutFirst key (map.table (hash key map.tablelen)) (some left)
      → IsMap (record map { table = put_chain map.table (hash key map.tablelen) left; size = size })
  unfolding put_chain
  remove-IsMap map key left size v (found, distinct) =
      let home = hash key map.tablelen in
      let t = v.table in
      record {
        bits = v.bits;
        fits = v.fits;
        length = v.length;
        table = record {
          distinct = λ i. elim (Bool-cases (i == home)) [
            | inl at ↦ rw at distinct
            | inr away ↦ rw away (t.distinct i)
          ];
          at_home = λ i k n. elim (Bool-cases (i == home)) [
            | inl at ↦
                let here : i ≡ home = ground (arith, at) in
                let nothing : find_in k (map.table home) ≡ none = rw here at (t.at_home i k n) in
                rw (at, found k, nothing) (either_none (k == key))
            | inr away ↦ rw away (t.at_home i k n)
          ];
        };
      }

  found-removed :
      (map : Map A) (key k : ℕ) (left : List (Entry A))
      → WithoutFirst key (map.table (hash key map.tablelen)) (some left)
      → held (put_chain map.table (hash key map.tablelen) left) map.tablelen k
        ≡ (if k == key then none else held map.table map.tablelen k)
  unfolding put_chain
  found-removed map key k left (found, distinct) =
      let home = hash key map.tablelen in
      elim (Bool-cases (hash k map.tablelen == home)) [
        | inl at ↦
            let there : hash k map.tablelen ≡ home = ground (arith, at) in
            let self : (home == home) ≡ true = ground arith in rw (there, self) (found k)
        | inr away ↦ elim (Bool-cases (k == key)) [
          | inl same ↦
              let e : k ≡ key = ground (arith, same) in
              absurd (ground (arith, away, ap (λ x. hash x map.tablelen) e))
          | inr other ↦ rw (away, other) refl
        ]
      ]

  after_remove-Removed :
      (map : Map A) (key : ℕ) (r : Option (List (Entry A)))
      → IsMap map
      → remove_from key (map.table (hash key map.tablelen)) ≡ r
      → WithoutFirst key (map.table (hash key map.tablelen)) r
      → Removed map key (after_remove map (hash key map.tablelen) r)
  unfolding map_find
  after_remove-Removed map key none v e w = unknown w
  after_remove-Removed map key (some left) v e w =
      let chain = map.table (hash key map.tablelen) in
      let size = (map.size + 2 ^ 64 - 1) % 2 ^ 64 in
      elim (found-cases (find_in key chain)) [
        | inl h ↦ absurd (ground (arith, sym e ∙ remove_from-none key chain h))
        | inr (p, h) ↦
            taken
              (record map { table = put_chain map.table (hash key map.tablelen) left; size = size })
              p (remove-IsMap map key left size v w) h (λ k. found-removed map key k left w)
      ]

  -- Removing takes out the entry with the key and no other; where there is none it is refused and nothing changes.
  pub map_remove-Removed :
      (map : Map A) (key : ℕ) → IsMap map → Removed map key (map_remove map key)
  unfolding map_remove
  map_remove-Removed map key v =
      let table = v.table in
      let chain = map.table (hash key map.tablelen) in
      after_remove-Removed map key (remove_from key chain) v refl
        (remove_from-WithoutFirst key chain (table.distinct (hash key map.tablelen)))
