-- ===== src/Pq.antt =====
-- Polygon/lib/ngtcp2_pq.c: a binary heap of pointers. A pointer is a number; what it points to is the `index`
-- that the queue keeps in the entry and the item around the entry, both functions from pointers. The array is a
-- function from slots; an access outside its capacity is a fault.
pub mod Order
pub mod Up
pub mod Down
pub mod Queue
pub mod Push
pub mod Remove
pub mod Update
mod Tests
use polygon.Base.{
  ℕ, zero, suc, ◌+◌, ◌-◌, ◌*◌, ◌/◌, ◌%◌, ◌^◌, Bool, false, ◌||◌, not, if◌then◌else◌, ltb, leb, ◌==◌,
  max, Option, none, some, Result, ok, fault, ◌>>=◌, ◌>>◌, assert, err, nomem, sub64,
}

pub record Pq {ℓ} (A : Type ℓ) : Type ℓ where
  pub q : ℕ → ℕ
  pub length : ℕ
  pub capacity : ℕ
  pub index : ℕ → ℕ
  pub item : ℕ → A

-- A write to one place of a function.
unfoldable pub set {ℓ} : {A : Type ℓ} → (ℕ → A) → ℕ → A → ℕ → A
set f i a j = if j == i then a else f j

abbrev pub parent_of : ℕ → ℕ
parent_of i = (i - 1) / 2

module _ {ℓ} {A : Type ℓ} where
  unfoldable pub pq_init : Pq A → Pq A
  pq_init pq = record pq { length = 0; capacity = 0 }

  -- `pq->q[i]`
  unfoldable pub slot : Pq A → ℕ → Result ℕ
  slot pq i = if ltb i pq.capacity then ok (pq.q i) else fault

  -- `pq->q[i] = b; b->index = i;`
  unfoldable pub put : Pq A → ℕ → ℕ → Pq A
  unfolding set
  put pq i b = record pq { q = set pq.q i b; index = set pq.index b i }

  unfoldable pub swap : Pq A → ℕ → ℕ → Result (Pq A)
  unfolding slot put
  swap pq i j = do a ← slot pq i; b ← slot pq j; ok (put (put pq i b) j a)

  unfoldable pub pq_top : Pq A → Result (Option ℕ)
  unfolding slot
  pq_top pq = if pq.length == 0 then ok none else (do top ← slot pq 0; ok (some top))

  unfoldable pub pq_empty : Pq A → Bool
  pq_empty pq = pq.length == 0

  unfoldable pub pq_size : Pq A → ℕ
  pq_size pq = pq.length

  -- `memory` says whether `ngtcp2_mem_realloc` gives memory.
  unfoldable pub grow : Bool → Pq A → Result (Pq A)
  grow memory pq =
      let doubled = record pq { capacity = max 4 (pq.capacity * 2 % 2 ^ 64) } in
      if leb pq.capacity pq.length then (if memory then ok doubled else err nomem) else ok pq

module _ {ℓ} {A : Type ℓ} (less : A → A → Bool) where
  -- `pq->less(pq->q[i], pq->q[j])`
  unfoldable pub less_at : Pq A → ℕ → ℕ → Result Bool
  unfolding slot
  less_at pq i j = do a ← slot pq i; b ← slot pq j; ok (less (pq.item a) (pq.item b))

  -- The loop of `bubble_up` on fuel.
  unfoldable pub bubble_up_loop : ℕ → Pq A → ℕ → Result (Pq A)
  unfolding less_at swap
  bubble_up_loop zero pq i = fault
  bubble_up_loop (suc fuel) pq i =
      let rise : Result (Pq A) = do
        pq' ← swap pq (parent_of i) i
        bubble_up_loop fuel pq' (parent_of i)
      in let step : Result (Pq A) = do
        below ← less_at pq i (parent_of i)
        if below then rise else ok pq
        in if i == 0 then ok pq else step

  unfoldable pub bubble_up : Pq A → ℕ → Result (Pq A)
  unfolding bubble_up_loop
  bubble_up pq i = bubble_up_loop (suc i) pq i

  -- One round of the inner loop of `bubble_down`.
  unfoldable pub smaller : Pq A → ℕ → ℕ → Result ℕ
  unfolding less_at
  smaller pq j min_index = do below ← less_at pq j min_index; ok (if below then j else min_index)

  -- The inner loop of `bubble_down`: the least of an entry and its children.
  unfoldable pub min_child : Pq A → ℕ → Result ℕ
  unfolding smaller
  min_child pq i =
      let j = i * 2 + 1 in
      let second : ℕ → Result ℕ =
        λ m. if leb pq.length (suc j) then ok m else smaller pq (suc j) m in
      if leb pq.length j then ok i else smaller pq j i >>= second

  unfoldable pub bubble_down_loop : ℕ → Pq A → ℕ → Result (Pq A)
  unfolding min_child swap
  bubble_down_loop zero pq i = fault
  bubble_down_loop (suc fuel) pq i = do
    m ← min_child pq i
    let sink = swap pq i m >>= λ pq'. bubble_down_loop fuel pq' m
    if m == i then ok pq else sink

  unfoldable pub bubble_down : Pq A → ℕ → Result (Pq A)
  unfolding bubble_down_loop
  bubble_down pq i = bubble_down_loop (suc pq.length) pq i

  unfoldable pub pq_push : Bool → Pq A → ℕ → Result (Pq A)
  pq_push memory pq item = do
    grown ← grow memory pq
    _ ← slot grown grown.length
    bubble_up (record (put grown grown.length item) { length = suc grown.length }) grown.length

  unfoldable pub pq_pop : Pq A → Result (Pq A)
  pq_pop pq =
      let take_last : Result (Pq A) = do
        last ← slot pq (pq.length - 1)
        bubble_down (record (put pq 0 last) { length = pq.length - 1 }) 0
      in if ltb 0 pq.length then take_last else ok pq

  unfoldable pub pq_remove : Pq A → ℕ → Result (Pq A)
  pq_remove pq item =
      let i = pq.index item in
      let refill : Result (Pq A) = do
        last ← slot pq (sub64 pq.length 1)
        let left = record (put pq i last) { length = sub64 pq.length 1 }
        let further = less (left.item item) (left.item (left.q i))
        if further then bubble_down left i else bubble_up left i
      in do
        found ← slot pq i
        assert (found == item)
        if i == 0
            then pq_pop pq
            else if i == sub64 pq.length 1
            then ok (record pq { length = sub64 pq.length 1 })
            else refill

-- What a callback gives: whether it is to count, and the item that it leaves.
module _ {ℓ} {A : Type ℓ} (fun : A → Bool × A) where
  -- The `for` of `ngtcp2_pq_update`, with the disjunction of what the calls return.
  unfoldable pub update_items : ℕ → ℕ → Bool → Pq A → Result (Bool × Pq A)
  unfolding slot set
  update_items zero i rv pq = ok (rv, pq)
  update_items (suc n) i rv pq = do
    entry ← slot pq i
    let (changed, new_item) = fun (pq.item entry)
    update_items n (suc i) (rv || changed) (record pq { item = set pq.item entry new_item })

  unfoldable pub each_item : ℕ → ℕ → Pq A → Result (Bool × Pq A)
  unfolding slot set
  each_item zero i pq = ok (false, pq)
  each_item (suc n) i pq = do
    entry ← slot pq i
    let (stop, new_item) = fun (pq.item entry)
    let pq' = record pq { item = set pq.item entry new_item }
    let rest : Result (Bool × Pq A) = each_item n (suc i) pq'
    if stop then ok (stop, pq') else rest

  unfoldable pub pq_each : Pq A → Result (Bool × Pq A)
  unfolding each_item
  pq_each pq = each_item pq.length 0 pq

module _ {ℓ} {A : Type ℓ} (less : A → A → Bool) where
  -- The `for` that counts down.
  unfoldable pub heapify : ℕ → Pq A → Result (Pq A)
  heapify zero pq = ok pq
  heapify (suc i) pq = bubble_down less pq i >>= heapify i

  unfoldable pub pq_update : (A → Bool × A) → Pq A → Result (Pq A)
  pq_update fun pq = do
    (rv, pq') ← update_items fun pq.length 0 false pq
    if rv then heapify pq'.length pq' else ok pq'
