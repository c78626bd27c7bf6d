-- ===== src/Pq/Order.antt =====
-- What ngtcp2_pq.c keeps: the index of each entry, and the heap order of the numbers that `less` compares.
use polygon.Base.{ℕ, ◌≤◌, ◌<◌, ◌^◌, Bool, ◌&&◌, ltb, ◌==◌, if◌then◌else◌, ◌≡◌, refl, ◌∙◌, arith, ok}
use polygon.Pq.{Pq, set, slot, put, swap, less_at, parent_of}

module _ {ℓ} {A : Type ℓ} where
  -- An entry is in the queue.
  unfoldable pub holds : Pq A → ℕ → Bool
  holds pq x = ltb (pq.index x) pq.length && (pq.q (pq.index x) == x)

  -- Each entry in the array knows its slot, and the array has room.
  pub record IsIndexed (pq : Pq A) : Type ℓ where
    pub room : pq.length ≤ pq.capacity
    pub small : pq.capacity < 2 ^ 61
    pub indexed : (i : ℕ) → i < pq.length → pq.index (pq.q i) ≡ i

  unfoldable pub swapped : Pq A → ℕ → ℕ → Pq A
  unfolding put
  swapped pq i j = put (put pq i (pq.q j)) j (pq.q i)

  pub slot_ok : (pq : Pq A) (i : ℕ) → i < pq.capacity → slot pq i ≡ ok (pq.q i)
  unfolding slot
  slot_ok pq i h = ground arith

  pub swap_ok :
      (pq : Pq A) (i j : ℕ) → i < pq.capacity → j < pq.capacity → swap pq i j ≡ ok (swapped pq i j)
  unfolding swap swapped
  swap_ok pq i j hi hj = rw (slot_ok pq i hi, slot_ok pq j hj) refl

  -- What a change of the array keeps: the entries in the queue and the items around them.
  pub record IsMoved (pq pq' : Pq A) : Type ℓ where
    pub indexes : IsIndexed pq'
    pub size : pq'.length ≡ pq.length
    pub space : pq'.capacity ≡ pq.capacity
    pub entries : (x : ℕ) → holds pq' x ≡ holds pq x
    pub items : pq'.item ≡ pq.item

  pub IsMoved-trans : (a b c : Pq A) → IsMoved a b → IsMoved b c → IsMoved a c
  IsMoved-trans a b c m n = record {
    indexes = n.indexes;
    size = omega (arith, m.size, n.size);
    space = omega (arith, m.space, n.space);
    entries = λ x. n.entries x ∙ m.entries x;
    items = n.items ∙ m.items;
  }

  pub IsMoved-refl : (a : Pq A) → IsIndexed a → IsMoved a a
  IsMoved-refl a h = record {
    indexes = h;
    size = refl;
    space = refl;
    entries = λ x. refl;
    items = refl;
  }

  pub swapped-IsMoved :
      (pq : Pq A) (i j : ℕ)
      → IsIndexed pq
      → i < pq.length
      → j < pq.length
      → IsMoved pq (swapped pq i j)
  unfolding swapped put set holds
  swapped-IsMoved pq i j h hi hj = record {
    indexes = record {
      room = h.room;
      small = h.small;
      indexed = λ c hc. ground (arith, h.indexed i hi, h.indexed j hj, h.indexed c hc);
    };
    size = refl;
    space = refl;
    entries = λ x. ground (arith, h.indexed i hi, h.indexed j hj);
    items = refl;
  }

module _ {ℓ} {A : Type ℓ} (key : A → ℕ) where
  -- The comparison of the numbers that the items hold.
  unfoldable pub less_by : A → A → Bool
  less_by x y = ltb (key x) (key y)

  unfoldable pub key_at : Pq A → ℕ → ℕ
  key_at pq i = key (pq.item (pq.q i))

  -- Every edge whose parent is at `low` or behind it is in order.
  abbrev pub IsHeapFrom : ℕ → Pq A → Type 0
  IsHeapFrom low pq =
      (c : ℕ) → 0 < c → c < pq.length → low ≤ parent_of c → key_at pq (parent_of c) ≤ key_at pq c

  pub less_at_ok :
      (pq : Pq A) (i j : ℕ)
      → i < pq.capacity
      → j < pq.capacity
      → less_at less_by pq i j ≡ ok (ltb (key_at pq i) (key_at pq j))
  unfolding less_at less_by key_at
  less_at_ok pq i j hi hj = rw (slot_ok pq i hi, slot_ok pq j hj) refl

  pub key_at-swapped :
      (pq : Pq A) (i j c : ℕ)
      → key_at (swapped pq i j) c
        ≡ (if c == j then key_at pq i else if c == i then key_at pq j else key_at pq c)
  unfolding key_at swapped put set
  key_at-swapped pq i j c = ground arith

  -- The array after sifting.
  pub record IsSifted (low : ℕ) (pq pq' : Pq A) : Type ℓ where
    pub moved : IsMoved pq pq'
    pub order : IsHeapFrom low pq'
