-- ===== src/Map/Resize.antt =====
-- The loops of `resize`: the new table holds what the old one does.
use polygon.Base.{
  ℕ, zero, suc, ◌+◌, ◌≤◌, ◌<◌, ◌==◌, List, [], ◌∷◌, Option, none, ◌≡◌, ◌≢◌, refl, ◌∙◌, sym, arith,
  inl, inr, Bool-cases,
}
use polygon.Map.{Entry, Table, empty_table, find_in, insert, move_chain, move_slots, hash}
use polygon.Map.Chain.{or_else, or_else_assoc, or_else-none, IsDistinct}
use polygon.Map.Table.{held, only, IsTable, held-insert, insert-IsTable}

module _ {A : Type 0} where
  find_in-only :
      (e : Entry A) (chain : List (Entry A)) (key : ℕ)
      → find_in key (e ∷ chain) ≡ or_else (only e key) (find_in key chain)
  unfolding find_in
  find_in-only e chain key = elim (Bool-cases (e.key == key)) [
    | inl e1 ↦ rw e1 refl
    | inr e1 ↦ rw e1 refl
  ]

  held-move_chain :
      (tablelen : ℕ) (chain : List (Entry A)) (table : Table A) (key : ℕ)
      → held (move_chain tablelen chain table) tablelen key
        ≡ or_else (held table tablelen key) (find_in key chain)
  unfolding move_chain
  held-move_chain tablelen [] table key =
      unfold find_in in sym (or_else-none (held table tablelen key))
  held-move_chain tablelen (e ∷ chain) table key =
      held-move_chain tablelen chain (insert table tablelen e).0 key
      ∙ rw (held-insert table tablelen e key, find_in-only e chain key)
          (or_else_assoc (held table tablelen key) (only e key) (find_in key chain))

  move_chain-IsTable :
      (tablelen : ℕ) (chain : List (Entry A)) (table : Table A)
      → IsTable table tablelen
      → IsTable (move_chain tablelen chain table) tablelen
  unfolding move_chain
  move_chain-IsTable tablelen [] table v = v
  move_chain-IsTable tablelen (e ∷ chain) table v =
      move_chain-IsTable tablelen chain (insert table tablelen e).0
        (insert-IsTable table tablelen e v)

  -- What `n` slots hold from slot `i` on.
  abbrev in_slots : Table A → ℕ → ℕ → ℕ → Option (Entry A)
  in_slots table key zero i = none
  in_slots table key (suc n) i = or_else (find_in key (table i)) (in_slots table key n (suc i))

  held-move_slots :
      (tablelen : ℕ) (old : Table A) (n i : ℕ) (table : Table A) (key : ℕ)
      → held (move_slots tablelen old n i table) tablelen key
        ≡ or_else (held table tablelen key) (in_slots old key n i)
  unfolding move_slots
  held-move_slots tablelen old zero i table key = sym (or_else-none (held table tablelen key))
  held-move_slots tablelen old (suc n) i table key =
      held-move_slots tablelen old n (suc i) (move_chain tablelen (old i) table) key
      ∙ rw (held-move_chain tablelen (old i) table key) (
          or_else_assoc (held table tablelen key) (find_in key (old i))
            (in_slots old key n (suc i)))

  move_slots-IsTable :
      (tablelen : ℕ) (old : Table A) (n i : ℕ) (table : Table A)
      → IsTable table tablelen
      → IsTable (move_slots tablelen old n i table) tablelen
  unfolding move_slots
  move_slots-IsTable tablelen old zero i table v = v
  move_slots-IsTable tablelen old (suc n) i table v =
      move_slots-IsTable tablelen old n (suc i) (move_chain tablelen (old i) table)
        (move_chain-IsTable tablelen (old i) table v)

  slots_above :
      (old : Table A) (oldlen key n i : ℕ)
      → IsTable old oldlen
      → hash key oldlen < i
      → in_slots old key n i ≡ none
  slots_above old oldlen key zero i v lt = refl
  slots_above old oldlen key (suc n) i v lt =
      let away : find_in key (old i) ≡ none = v.at_home i key (λ e. absurd (omega arith)) in
      rw (away, slots_above old oldlen key n (suc i) v (omega arith)) refl

  slots_from :
      (old : Table A) (oldlen key n i : ℕ)
      → IsTable old oldlen
      → i ≤ hash key oldlen
      → hash key oldlen < i + n
      → in_slots old key n i ≡ held old oldlen key
  slots_from old oldlen key zero i v le lt = absurd (omega arith)
  slots_from old oldlen key (suc n) i v le lt = elim (Bool-cases (i == hash key oldlen)) [
    | inl at ↦
        let here : i ≡ hash key oldlen = ground (arith, at) in
        rw (slots_above old oldlen key n (suc i) v (omega arith), here)
          (or_else-none (held old oldlen key))
    | inr away ↦
        let other : hash key oldlen ≢ i = ground (arith, away) in
        rw (v.at_home i key other)
          (slots_from old oldlen key n (suc i) v (ground (arith, away)) (omega arith))
  ]

  empty-IsTable : (tablelen : ℕ) → IsTable (empty_table {A = A}) tablelen
  unfolding IsDistinct find_in
  empty-IsTable tablelen = record { distinct = λ i. tt; at_home = λ i key n. refl }

  -- The new table of `resize` is in order and holds what the old one does.
  pub move_slots-held :
      (old : Table A) (oldlen tablelen : ℕ)
      → IsTable old oldlen
      → ((key : ℕ) → hash key oldlen < oldlen)
      → IsTable (move_slots tablelen old oldlen 0 empty_table) tablelen
        × ((key : ℕ)
            → held (move_slots tablelen old oldlen 0 empty_table) tablelen key
              ≡ held old oldlen key)
  move_slots-held old oldlen tablelen v inside = (
    move_slots-IsTable tablelen old oldlen 0 empty_table (empty-IsTable tablelen),
    λ key.
        let nothing : held (empty_table {A = A}) tablelen key ≡ none = unfold find_in in refl in
        held-move_slots tablelen old oldlen 0 empty_table key
        ∙ rw nothing
            (slots_from old oldlen key oldlen 0 v (omega arith) (omega (arith, inside key))),
  )
