-- ===== src/Map/Tests.antt =====
-- Runs of ngtcp2_map.c on small tables.
use polygon.Base.{
  ℕ, ◌<◌, true, false, if◌then◌else◌, ◌==◌, [], ◌∷◌, none, some, err, invalid_argument, ◌≡◌, refl,
  arith, inl, inr, Bool-cases,
}
use polygon.Map.{
  Entry, Map, put_chain, find_in, insert, insert_into, resize, map_insert, map_find, map_remove,
  map_each, each_in, each_slot, move_slots, move_chain, hash, hash_bytes,
}
use polygon.Map.Chain.{IsDistinct}
use polygon.Map.Table.{hash-in_table}
use polygon.Map.Finite.{IsMap, Inserted, Removed, map_insert-Inserted, map_remove-Removed}

abbrev first : Entry ℕ
first = record { key = 4; item = 40 }

abbrev second : Entry ℕ
second = record { key = 8; item = 80 }

-- One slot with one entry.
abbrev one_slot : Map ℕ
one_slot = record { table = λ i. if i == 0 then first ∷ [] else []; tablelen = 1; size = 1 }

-- FNV-1a of eight bytes 0, 0, ..., 4.
hash_four : hash 4 256 ≡ 25
unfolding hash hash_bytes
hash_four = refl

-- The table is enlarged, and both entries are found.
insert_enlarges :
    (let map = (map_insert true one_slot second).0 in
      if map.tablelen == 2 then map_find map 4 ∷ map_find map 8 ∷ map_find map 12 ∷ [] else [])
    ≡ some first ∷ some second ∷ none ∷ []
unfolding map_insert insert_into resize move_slots move_chain insert put_chain find_in map_find hash
    hash_bytes
insert_enlarges = refl

insert_twice : (map_insert true one_slot (record { key = 4; item = 41 })).1 ≡ err invalid_argument
unfolding map_insert insert_into resize move_slots move_chain insert put_chain find_in hash
    hash_bytes
insert_twice = refl

-- The walk stops at the first entry that the callback does not want to go on from.
each_stops :
    map_each (λ e seen. (e.key ∷ seen, if e.key == 4 then 1 else 0)) one_slot [] ≡ (4 ∷ [], 1)
unfolding map_each each_slot each_in
each_stops = refl

one_slot-IsMap : IsMap one_slot
unfolding IsDistinct find_in
one_slot-IsMap = record {
  bits = 0;
  fits = omega arith;
  length = refl;
  table = record {
    distinct = λ i. elim (Bool-cases (i == 0)) [ inl e ↦ rw e (refl, tt) | inr e ↦ rw e tt ];
    at_home = λ i key n.
        let inside : hash key 1 < 1 = hash-in_table 0 key 1 (omega arith) refl in
        let away : (i == 0) ≡ false = ground (arith, n) in rw away refl;
  };
}

map_insert-Inserted_example : Inserted true one_slot second (map_insert true one_slot second)
map_insert-Inserted_example = map_insert-Inserted true one_slot second one_slot-IsMap (omega arith)

map_remove-Removed_example : Removed one_slot 4 (map_remove one_slot 4)
map_remove-Removed_example = map_remove-Removed one_slot 4 one_slot-IsMap
