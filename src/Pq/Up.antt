-- ===== src/Pq/Up.antt =====
-- `bubble_up` of ngtcp2_pq.c restores the heap order and returns.
use polygon.Base.{ℕ, zero, suc, ◌≤◌, ◌<◌, ltb, ◌==◌, ◌≢◌, ◌≡◌, ◌⊎◌, arith}
use polygon.Base.Gives.{Gives, gives, Gives-weaken, Gives-cases}
use polygon.Pq.{Pq, bubble_up, bubble_up_loop, parent_of}
use polygon.Pq.Order.{
  IsIndexed, IsMoved, IsMoved-refl, IsMoved-trans, IsSifted, swapped, swapped-IsMoved, swap_ok,
  less_by, key_at, less_at_ok, key_at-swapped,
}

module _ {ℓ} {A : Type ℓ} (key : A → ℕ) where
  -- Only the edge above slot `i` may be out of order.
  pub record IsRising (pq : Pq A) (i : ℕ) : Type ℓ where
    pub indexes : IsIndexed pq
    pub inside : i < pq.length
    pub edges :
        (c : ℕ) → 0 < c → c < pq.length → c ≢ i → key_at key pq (parent_of c) ≤ key_at key pq c
    pub across :
        (c : ℕ)
        → 0 < c
        → c < pq.length
        → 0 < i
        → parent_of c ≡ i
        → key_at key pq (parent_of i) ≤ key_at key pq c

  swapped-IsRising :
      (pq : Pq A) (i : ℕ)
      → IsRising pq i
      → 0 < i
      → key_at key pq i < key_at key pq (parent_of i)
      → IsMoved pq (swapped pq (parent_of i) i)
      → IsRising (swapped pq (parent_of i) i) (parent_of i)
  swapped-IsRising pq i v pos below m =
      let at = key_at-swapped key pq (parent_of i) i in
      let size = m.size in
      record {
        indexes = m.indexes;
        inside = ground (arith, v.inside);
        edges = λ c h1 h2 h3. ground (arith, at c, at (parent_of c), v.edges c, v.across c);
        across = λ c h1 h2 h3 h4.
            ground (arith, at c, at (parent_of (parent_of i)), v.edges c, v.edges (parent_of i));
      }

  bubble_up_loop-IsSifted :
      (fuel : ℕ) (pq : Pq A) (i : ℕ)
      → i < fuel
      → IsRising pq i
      → Gives (IsSifted key 0 pq) (bubble_up_loop (less_by key) fuel pq i)
  unfolding bubble_up_loop
  bubble_up_loop-IsSifted zero pq i f v = absurd (omega arith)
  bubble_up_loop-IsSifted (suc fuel) pq i f v =
      let room = v.indexes.room in
      let inside = v.inside in
      let hi : i < pq.capacity = omega arith in
      let hp : parent_of i < pq.capacity = omega arith in
      let settled : (i ≡ 0) ⊎ (key_at key pq (parent_of i) ≤ key_at key pq i)
          → IsSifted key 0 pq pq =
        λ h. record {
          moved = IsMoved-refl pq v.indexes;
          order = λ c h1 h2 h3. ground (arith, v.edges c);
        } in
      rw (less_at_ok key pq i (parent_of i) hi hp, swap_ok pq (parent_of i) i hp hi)
        (Gives-cases (i == 0)
          (λ e1.
            Gives-cases (ltb (key_at key pq i) (key_at key pq (parent_of i)))
              (λ e2. gives (settled (ground arith)))
              (λ e2.
                let m = swapped-IsMoved pq (parent_of i) i v.indexes (omega arith) inside in
                Gives-weaken (IsSifted key 0 pq)
                  (λ pq' s. record {
                    moved = IsMoved-trans pq (swapped pq (parent_of i) i) pq' m s.moved;
                    order = s.order;
                  })
                  (bubble_up_loop-IsSifted fuel (swapped pq (parent_of i) i) (parent_of i)
                    (ground arith) (swapped-IsRising pq i v (ground arith) (ground arith) m))))
          (λ e1. gives (settled (ground arith))))

  -- A queue in which one entry may be too low in the tree becomes a heap of the same entries.
  pub bubble_up-IsSifted :
      (pq : Pq A) (i : ℕ) → IsRising pq i → Gives (IsSifted key 0 pq) (bubble_up (less_by key) pq i)
  unfolding bubble_up
  bubble_up-IsSifted pq i v = bubble_up_loop-IsSifted (suc i) pq i (omega arith) v
