-- ===== src/Pq/Tests.antt =====
-- Runs of ngtcp2_pq.c on small queues, whose items are the numbers that are compared.
use polygon.Base.{
  ℕ, suc, ◌-◌, ◌≤◌, ◌<◌, true, false, not, ◌&&◌, ◌||◌, ltb, ◌==◌, ◌≡◌, refl, ok, some, arith, [],
  ◌∷◌, if◌then◌else◌, ◌>>=◌,
}
use polygon.Base.Gives.{Gives}
use polygon.Pq.{
  Pq, parent_of, pq_init, pq_push, pq_pop, pq_top, pq_remove, pq_update, pq_each, pq_empty, pq_size,
  put, slot, grow, heapify, update_items, bubble_down, bubble_up,
}
use polygon.Pq.Order.{holds, less_by, key_at}
use polygon.Pq.Queue.{IsQueue, Holds, pq_pop-Holds, pq_top_least}
use polygon.Pq.Push.{pq_push-Holds}
use polygon.Pq.Remove.{pq_remove-Holds}
use polygon.Pq.Update.{Updated, pq_update-Updated}

abbrev number : ℕ → ℕ
number n = n

-- The entries 10, 20 and 30 hold the numbers 5, 7 and 6.
abbrev item_of : ℕ → ℕ
item_of n = if n == 10 then 5 else if n == 20 then 7 else if n == 30 then 6 else n

abbrev slot_of : ℕ → ℕ
slot_of n = if n == 20 then 1 else if n == 30 then 2 else 0

abbrev entry_at : ℕ → ℕ
entry_at n = if n == 0 then 10 else if n == 1 then 20 else 30

abbrev three : Pq ℕ
three = record { q = entry_at; length = 3; capacity = 4; index = slot_of; item = item_of }

three_indexed : (i : ℕ) → i < 3 → slot_of (entry_at i) ≡ i
three_indexed i h = ground arith

three_ordered : (c : ℕ) → 0 < c → c < 3 → item_of (entry_at (parent_of c)) ≤ item_of (entry_at c)
three_ordered c h1 h2 = ground arith

three-IsQueue : IsQueue number three
unfolding key_at
three-IsQueue = record {
  indexes = record { room = omega arith; small = omega arith; indexed = three_indexed };
  order = λ c h1 h2 h3. three_ordered c h1 h2;
}

-- The third entry moves up when the first leaves.
pop_three : (pq_pop (less_by number) three >>= λ pq. pq_top pq) ≡ ok (some 30)
unfolding pq_pop bubble_down pq_top less_by put slot
pop_three = refl

-- The fifth entry makes the array grow.
push_two :
    (do
      four ← pq_push (less_by number) true three 2
      five ← pq_push (less_by number) true four 4
      ok (five.capacity ∷ five.q 0 ∷ five.q 1 ∷ five.q 4 ∷ five.index 2 ∷ five.index 20 ∷ []))
    ≡ ok (8 ∷ 2 ∷ 4 ∷ 10 ∷ 0 ∷ 3 ∷ [])
unfolding pq_push grow bubble_up less_by put slot
push_two = refl

-- The largest comes first when every number is replaced by its distance to 100.
update_three :
    (pq_update (less_by number) (λ n. (true, 100 - n)) three >>= λ pq. pq_top pq) ≡ ok (some 20)
unfolding pq_update heapify update_items bubble_down pq_top less_by put slot
update_three = refl

-- The walk stops at the first entry that the callback accepts.
each_three :
    (do
      r ← pq_each (λ n. (ltb 6 n, suc n)) three
      ok (r.1.item 10 ∷ r.1.item 20 ∷ r.1.item 30 ∷ []))
    ≡ ok (6 ∷ 8 ∷ 6 ∷ [])
unfolding pq_each
each_three = refl

empty : (if pq_empty (pq_init three) then pq_size three else 0) ≡ 3
unfolding pq_empty pq_size pq_init
empty = refl

pq_pop-Holds_example :
    Gives (Holds number (λ x. holds three x && not (x == 10)) three) (pq_pop (less_by number) three)
pq_pop-Holds_example = pq_pop-Holds number three three-IsQueue (omega arith)

pq_top_least_example :
    (pq_top three ≡ ok (some 10))
    × (holds three 10 ≡ true)
    × ((x : ℕ) → holds three x ≡ true → 5 ≤ item_of x)
pq_top_least_example = pq_top_least number three three-IsQueue (omega arith)

pq_push-Holds_example :
    Gives
      (Holds number (λ x. holds three x || x == 2) three)
      (pq_push (less_by number) true three 2)
pq_push-Holds_example =
    pq_push-Holds number three 2 three-IsQueue (omega arith) (unfold holds in refl)

pq_remove-Holds_example :
    Gives
      (Holds number (λ x. holds three x && not (x == 20)) three)
      (pq_remove (less_by number) three 20)
pq_remove-Holds_example = pq_remove-Holds number three 20 three-IsQueue (unfold holds in refl)

always_told : (n : ℕ) → true ≡ false → 100 - n ≡ n
always_told n h = ground arith

pq_update-Updated_example :
    Gives
      (Updated number (λ n. (true, 100 - n)) three)
      (pq_update (less_by number) (λ n. (true, 100 - n)) three)
pq_update-Updated_example =
    pq_update-Updated number (λ n. (true, 100 - n)) three three-IsQueue always_told
