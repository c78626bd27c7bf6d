-- ===== src/Map.antt =====
-- Polygon/lib/ngtcp2_map.c: a hash table of chained entries. An entry is its key and the item around it; a chain is the
-- list of its entries, which `next` links, so an entry that is put_chain in must not be in a chain. The table is a function
-- from slots to chains.
pub mod Chain
pub mod Table
pub mod Resize
pub mod Finite
mod Tests
use polygon.Base.{
  ℕ, zero, suc, ◌+◌, ◌-◌, ◌*◌, ◌/◌, ◌%◌, ◌^◌, Bool, false, true, if◌then◌else◌, ltb, ◌==◌, List, [],
  ◌∷◌, Option, none, some, bit_and, bit_xor, Error, Result, ok, err, fault, nomem, invalid_argument,
}

pub record Entry {ℓ} (A : Type ℓ) : Type ℓ where
  pub key : ℕ
  pub item : A

pub record Map {ℓ} (A : Type ℓ) : Type ℓ where
  pub table : ℕ → List (Entry A)
  pub tablelen : ℕ
  pub size : ℕ

-- The loop of `hash` over the last `n` bytes of the key, the greatest byte of the key being the first.
unfoldable pub hash_bytes : ℕ → ℕ → ℕ → ℕ
hash_bytes zero key h = h
hash_bytes (suc n) key h = hash_bytes n key (bit_xor h (key / 256 ^ n % 256) * 16777619 % 2 ^ 32)

unfoldable pub hash : ℕ → ℕ → ℕ
hash key tablelen = bit_and (hash_bytes 8 key 2166136261) ((tablelen + 2 ^ 32 - 1) % 2 ^ 32)

abbrev pub Table {ℓ} : Type ℓ → Type ℓ
Table A = ℕ → List (Entry A)

module _ {ℓ} {A : Type ℓ} where
  abbrev pub empty_table : Table A
  empty_table h = []

  -- A write to one slot.
  unfoldable pub put_chain : Table A → ℕ → List (Entry A) → Table A
  put_chain table h chain i = if i == h then chain else table i

  -- `memory` says whether there is memory for the table.
  unfoldable pub map_init : Bool → Result (Map A)
  map_init memory =
      if memory then ok (record { table = empty_table; tablelen = 256; size = 0 }) else err nomem

  -- The loop of `ngtcp2_map_find`.
  unfoldable pub find_in : ℕ → List (Entry A) → Option (Entry A)
  find_in key [] = none
  find_in key (e ∷ chain) = let rest = find_in key chain in if e.key == key then some e else rest

  -- The entry is put_chain in front of its chain, unless one with its key is found there.
  abbrev pub insert_at : Table A → ℕ → Entry A → Option (Entry A) → Table A × Result (Unit {0})
  insert_at table h entry (some p) = (table, err invalid_argument)
  insert_at table h entry none = (put_chain table h (entry ∷ table h), ok tt)

  unfoldable pub insert : Table A → ℕ → Entry A → Table A × Result (Unit {0})
  insert table tablelen entry =
      let h = hash entry.key tablelen in insert_at table h entry (find_in entry.key (table h))

  -- The inner loop of `resize`; what `insert` returns is not looked at.
  unfoldable pub move_chain : ℕ → List (Entry A) → Table A → Table A
  move_chain new_tablelen [] new_table = new_table
  move_chain new_tablelen (e ∷ chain) new_table =
      move_chain new_tablelen chain (insert new_table new_tablelen e).0

  -- The outer loop of `resize` over `n` slots from `i` on.
  unfoldable pub move_slots : ℕ → Table A → ℕ → ℕ → Table A → Table A
  move_slots new_tablelen table zero i new_table = new_table
  move_slots new_tablelen table (suc n) i new_table =
      move_slots new_tablelen table n (suc i) (move_chain new_tablelen (table i) new_table)

  unfoldable pub resize : Bool → Map A → ℕ → Map A × Result (Unit {0})
  resize memory map new_tablelen =
      let new_table = move_slots new_tablelen map.table map.tablelen 0 empty_table in
      if memory
      then (record map { table = new_table; tablelen = new_tablelen }, ok tt)
      else (map, err nomem)

  abbrev pub count_new : Map A → Table A × Result (Unit {0}) → Map A × Result (Unit {0})
  count_new map (table, ok _) =
      (record map { table = table; size = (map.size + 1) % 2 ^ 64 }, ok tt)
  count_new map (table, err e) = (map, err e)
  count_new map (table, fault) = (map, fault)

  -- The end of `ngtcp2_map_insert`, once there is room.
  unfoldable pub insert_into : Map A → Entry A → Map A × Result (Unit {0})
  insert_into map new_entry = count_new map (insert map.table map.tablelen new_entry)

  abbrev pub after_resize : Map A × Result (Unit {0}) → Entry A → Map A × Result (Unit {0})
  after_resize (map, ok _) new_entry = insert_into map new_entry
  after_resize (map, err e) new_entry = (map, err e)
  after_resize (map, fault) new_entry = (map, fault)

  unfoldable pub map_insert : Bool → Map A → Entry A → Map A × Result (Unit {0})
  map_insert memory map new_entry =
      if ltb (map.tablelen * 3 % 2 ^ 32) ((map.size + 1) * 4 % 2 ^ 64)
      then after_resize (resize memory map (map.tablelen * 2 % 2 ^ 32)) new_entry
      else insert_into map new_entry

  unfoldable pub map_find : Map A → ℕ → Option (Entry A)
  map_find map key = find_in key (map.table (hash key map.tablelen))

  -- The loop of `ngtcp2_map_remove`: the chain without the first entry with the key, if there is one.
  unfoldable pub remove_from : ℕ → List (Entry A) → Option (List (Entry A))
  remove_from key [] = none
  remove_from key (e ∷ chain) =
      let rest = remove_from key chain in
      if e.key == key then some chain else elim rest [ none ↦ none | some left ↦ some (e ∷ left) ]

  abbrev pub after_remove : Map A → ℕ → Option (List (Entry A)) → Map A × Result (Unit {0})
  after_remove map h none = (map, err invalid_argument)
  after_remove map h (some left) = (
    record map { table = put_chain map.table h left; size = (map.size + 2 ^ 64 - 1) % 2 ^ 64 },
    ok tt,
  )

  unfoldable pub map_remove : Map A → ℕ → Map A × Result (Unit {0})
  map_remove map key =
      let h = hash key map.tablelen in after_remove map h (remove_from key (map.table h))

  unfoldable pub map_size : Map A → ℕ
  map_size map = map.size

  -- The inner loop of `ngtcp2_map_each`: `func` has a state of its own, and gives 0 to go on.
  unfoldable pub each_in {κ} : {S : Type κ} → (Entry A → S → S × ℕ) → List (Entry A) → S → S × ℕ
  each_in func [] s = (s, 0)
  each_in func (e ∷ chain) s =
      let (s', rv) = func e s in
      let rest = each_in func chain s' in if rv == 0 then rest else (s', rv)

  -- The outer loop over `n` slots from `i` on.
  unfoldable pub each_slot {κ} : {S : Type κ} → (Entry A → S → S × ℕ) → Table A → ℕ → ℕ → S → S × ℕ
  each_slot func table zero i s = (s, 0)
  each_slot func table (suc n) i s =
      let (s', rv) = each_in func (table i) s in
      let rest = each_slot func table n (suc i) s' in if rv == 0 then rest else (s', rv)

  unfoldable pub map_each {κ} : {S : Type κ} → (Entry A → S → S × ℕ) → Map A → S → S × ℕ
  map_each func map s = each_slot func map.table map.tablelen 0 s

  -- `ngtcp2_map_each_free`: what `func` gives is not looked at, and every slot is emptied.
  unfoldable pub map_each_free {κ} : {S : Type κ} → (Entry A → S → S × ℕ) → Map A → S → Map A × S
  map_each_free {S = S} func map s =
      let go_on : Entry A → S → S × ℕ = λ e t. ((func e t).0, 0) in
      (
        record map { table = λ h. if ltb h map.tablelen then [] else map.table h },
        (each_slot go_on map.table map.tablelen 0 s).0,
      )
