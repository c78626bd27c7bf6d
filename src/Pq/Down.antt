-- ===== src/Pq/Down.antt =====
-- `bubble_down` of ngtcp2_pq.c restores the heap order and returns.
use polygon.Base.{
  ℕ, zero, suc, ◌+◌, ◌*◌, ◌≤◌, ◌<◌, ltb, leb, ◌==◌, ◌≢◌, ◌≡◌, ◌⊎◌, ok, arith, Bool, if◌then◌else◌,
}
use polygon.Base.Gives.{Gives, gives, Gives-weaken, Gives-cases}
use polygon.Pq.{Pq, bubble_down, bubble_down_loop, min_child, parent_of}
use polygon.Pq.Order.{
  IsIndexed, IsMoved, IsMoved-refl, IsMoved-trans, IsSifted, swapped, swapped-IsMoved, swap_ok,
  less_by, key_at, key_at-swapped,
}

module _ {ℓ} {A : Type ℓ} (key : A → ℕ) where
  -- Only the edges below slot `i` may be out of order.
  pub record IsSinking (low : ℕ) (pq : Pq A) (i : ℕ) : Type ℓ where
    pub indexes : IsIndexed pq
    pub inside : i < pq.length
    pub edges :
        (c : ℕ)
        → 0 < c
        → c < pq.length
        → low ≤ parent_of c
        → parent_of c ≢ i
        → key_at key pq (parent_of c) ≤ key_at key pq c
    pub across :
        (c : ℕ)
        → 0 < c
        → c < pq.length
        → 0 < i
        → low ≤ parent_of i
        → parent_of c ≡ i
        → key_at key pq (parent_of i) ≤ key_at key pq c

  -- The slot `m` holds the least number of slot `i` and its children.
  record IsLeast (pq : Pq A) (i m : ℕ) : Type ℓ where
    inside : m < pq.length
    family : (m ≡ i) ⊎ ((m ≡ i * 2 + 1) ⊎ (m ≡ i * 2 + 2))
    strict : m ≢ i → key_at key pq m < key_at key pq i
    least : (c : ℕ) → 0 < c → c < pq.length → parent_of c ≡ i → key_at key pq m ≤ key_at key pq c
    root : key_at key pq m ≤ key_at key pq i

  -- The slot that the two rounds of the inner loop come to.
  unfoldable lower : Pq A → ℕ → ℕ → ℕ
  lower pq c m =
      if leb pq.length c then m else if ltb (key_at key pq c) (key_at key pq m) then c else m

  min_child_ok :
      (pq : Pq A) (i : ℕ)
      → IsIndexed pq
      → i < pq.length
      → min_child (less_by key) pq i ≡ ok (lower pq (i * 2 + 2) (lower pq (i * 2 + 1) i))
  unfolding min_child lower less_by key_at
  min_child_ok pq i h hi =
      let room = h.room in let next : suc (i * 2 + 1) ≡ i * 2 + 2 = omega arith in ground arith

  lower-IsLeast :
      (pq : Pq A) (i : ℕ)
      → i < pq.length
      → IsLeast pq i (lower pq (i * 2 + 2) (lower pq (i * 2 + 1) i))
  unfolding lower
  lower-IsLeast pq i hi = record {
    inside = ground arith;
    family = ground arith;
    strict = ground arith;
    least =
        λ c h1 h2 h3. let which : (c ≡ i * 2 + 1) ⊎ (c ≡ i * 2 + 2) = omega arith in ground arith;
    root = ground arith;
  }

  swapped-IsSinking :
      (low : ℕ) (pq : Pq A) (i m : ℕ)
      → IsSinking low pq i
      → IsLeast pq i m
      → m ≢ i
      → IsMoved pq (swapped pq i m)
      → IsSinking low (swapped pq i m) m
  swapped-IsSinking low pq i m v l apart moved =
      let at = key_at-swapped key pq i m in
      let size = moved.size in
      let below = l.strict apart in
      let side : (m ≡ i * 2 + 1) ⊎ (m ≡ i * 2 + 2) = ground (arith, l.family) in
      record {
        indexes = moved.indexes;
        inside = omega (arith, l.inside);
        edges = λ c h1 h2 h3 h4.
            ground (arith, at c, at (parent_of c), v.edges c, v.across m, l.least c);
        across = λ c h1 h2 h3 h4 h5. ground (arith, at c, at (parent_of m), v.edges c);
      }

  bubble_down_loop-IsSifted :
      (fuel low : ℕ) (pq : Pq A) (i : ℕ)
      → pq.length < fuel + i
      → IsSinking low pq i
      → Gives (IsSifted key low pq) (bubble_down_loop (less_by key) fuel pq i)
  unfolding bubble_down_loop
  bubble_down_loop-IsSifted zero low pq i f v = absurd (omega (arith, v.inside))
  bubble_down_loop-IsSifted (suc fuel) low pq i f v =
      let room = v.indexes.room in
      let inside = v.inside in
      let m = lower pq (i * 2 + 2) (lower pq (i * 2 + 1) i) in
      let l : IsLeast pq i m = lower-IsLeast pq i inside in
      let hm = l.inside in
      rw (min_child_ok pq i v.indexes inside, swap_ok pq i m (omega arith) (omega arith))
        (Gives-cases (m == i)
          (λ e.
            let moved = swapped-IsMoved pq i m v.indexes inside hm in
            let down : (m ≡ i * 2 + 1) ⊎ (m ≡ i * 2 + 2) = ground (arith, l.family) in
            Gives-weaken (IsSifted key low pq)
              (λ pq' s. record {
                moved = IsMoved-trans pq (swapped pq i m) pq' moved s.moved;
                order = s.order;
              })
              (bubble_down_loop-IsSifted fuel low (swapped pq i m) m (omega (arith, moved.size))
                (swapped-IsSinking low pq i m v l (ground arith) moved)))
          (λ e. gives (record {
            moved = IsMoved-refl pq v.indexes;
            order = λ c h1 h2 h3. ground (arith, v.edges c, l.least c);
          })))

  -- A queue in which one entry may be too high in the tree becomes a heap of the same entries.
  pub bubble_down-IsSifted :
      (low : ℕ) (pq : Pq A) (i : ℕ)
      → IsSinking low pq i
      → Gives (IsSifted key low pq) (bubble_down (less_by key) pq i)
  unfolding bubble_down
  bubble_down-IsSifted low pq i v =
      bubble_down_loop-IsSifted (suc pq.length) low pq i (omega arith) v

module _ {ℓ} {A : Type ℓ} (less : A → A → Bool) where
  -- An entry without children stays where it is.
  pub bubble_down_nothing : (pq : Pq A) → pq.length ≤ 1 → bubble_down less pq 0 ≡ ok pq
  unfolding bubble_down bubble_down_loop min_child
  bubble_down_nothing pq h = ground arith
