-- ===== src/Pq/Queue.antt =====
-- The operations of ngtcp2_pq.c on a queue in good order: what they hold afterwards, and that they return.
use polygon.Base.{
  ℕ, zero, suc, ◌-◌, ◌≤◌, ◌<◌, Bool, true, not, ◌&&◌, ltb, ◌==◌, ◌≡◌, inl, inr, refl, ◌∙◌, ok, some,
  arith, if◌then◌else◌, ltb-cases,
}
use polygon.Base.Gives.{Gives, gives, Gives-weaken, Gives-cases}
use polygon.Pq.{Pq, set, put, parent_of, pq_pop, pq_top, bubble_down}
use polygon.Pq.Order.{IsIndexed, IsSifted, IsHeapFrom, holds, less_by, key_at, slot_ok}
use polygon.Pq.Down.{bubble_down-IsSifted, bubble_down_nothing}

module _ {ℓ} {A : Type ℓ} (key : A → ℕ) where
  pub record IsQueue (pq : Pq A) : Type ℓ where
    pub indexes : IsIndexed pq
    pub order : IsHeapFrom key 0 pq

  -- After an operation that leaves the items alone: a queue again, with the entries that `kept` tells.
  pub record Holds (kept : ℕ → Bool) (pq pq' : Pq A) : Type ℓ where
    pub queue : IsQueue pq'
    pub entries : (x : ℕ) → holds pq' x ≡ kept x
    pub items : pq'.item ≡ pq.item

  pub Holds-same :
      (kept kept' : ℕ → Bool) (pq pq' : Pq A)
      → ((x : ℕ) → kept x ≡ kept' x)
      → Holds kept pq pq'
      → Holds kept' pq pq'
  Holds-same kept kept' pq pq' same r = record {
    queue = r.queue;
    entries = λ x. r.entries x ∙ same x;
    items = r.items;
  }

  pub sifted-Holds :
      (kept : ℕ → Bool) (pq left pq' : Pq A)
      → left.item ≡ pq.item
      → ((x : ℕ) → holds left x ≡ kept x)
      → IsSifted key 0 left pq'
      → Holds kept pq pq'
  sifted-Holds kept pq left pq' items entries s = record {
    queue = record { indexes = s.moved.indexes; order = s.order };
    entries = λ x. s.moved.entries x ∙ entries x;
    items = s.moved.items ∙ items;
  }

  -- The array after the entry in slot `i` has given way to the last one.
  abbrev pub refilled : Pq A → ℕ → Pq A
  refilled pq i = record (put pq i (pq.q (pq.length - 1))) { length = pq.length - 1 }

  module _ (pq : Pq A) (i : ℕ) (h : IsIndexed pq) (hi : suc i < pq.length) where
    pub refilled-IsIndexed : IsIndexed (refilled pq i)
    unfolding put set
    refilled-IsIndexed = record {
      room = omega (arith, h.room);
      small = h.small;
      indexed = λ c hc.
          ground (arith, h.indexed c (omega arith), h.indexed (pq.length - 1) (omega arith));
    }

    pub holds-refilled : (x : ℕ) → holds (refilled pq i) x ≡ (holds pq x && not (x == pq.q i))
    unfolding holds put set
    holds-refilled x =
        ground (arith, h.indexed i (omega arith), h.indexed (pq.length - 1) (omega arith))

    pub key_at-refilled :
        (c : ℕ)
        → key_at key (refilled pq i) c
          ≡ (if c == i then key_at key pq (pq.length - 1) else key_at key pq c)
    unfolding key_at put set
    key_at-refilled c = ground arith

  -- Without its last entry.
  abbrev pub shortened : Pq A → Pq A
  shortened pq = record pq { length = pq.length - 1 }

  pub shortened-Holds :
      (pq : Pq A)
      → IsQueue pq
      → 0 < pq.length
      → Holds (λ x. holds pq x && not (x == pq.q (pq.length - 1))) pq (shortened pq)
  unfolding holds key_at
  shortened-Holds pq v h = record {
    queue = record {
      indexes = record {
        room = omega (arith, v.indexes.room);
        small = v.indexes.small;
        indexed = λ c hc. v.indexes.indexed c (omega arith);
      };
      order = λ c h1 h2 h3. v.order c h1 (omega arith) h3;
    };
    entries = λ x. ground (arith, v.indexes.indexed (pq.length - 1) (omega arith));
    items = refl;
  }

  -- Whatever is taken out of slot `i`, the last entry fills it and is sifted down from the root.
  refilled_root-Holds :
      (pq : Pq A)
      → IsQueue pq
      → 1 < pq.length
      → Gives
          (Holds (λ x. holds pq x && not (x == pq.q 0)) pq)
          (bubble_down (less_by key) (refilled pq 0) 0)
  unfolding put
  refilled_root-Holds pq v h =
      let at = key_at-refilled pq 0 v.indexes h in
      Gives-weaken (Holds (λ x. holds pq x && not (x == pq.q 0)) pq)
        (λ pq' s.
          sifted-Holds (λ x. holds pq x && not (x == pq.q 0)) pq (refilled pq 0) pq' refl
            (holds-refilled pq 0 v.indexes h) s)
        (bubble_down-IsSifted key 0 (refilled pq 0) 0 (record {
          indexes = refilled-IsIndexed pq 0 v.indexes h;
          inside = omega arith;
          edges = λ c h1 h2 h3 h4. ground (arith, at c, at (parent_of c), v.order c);
          across = λ c h1 h2 h3 h4 h5. absurd (omega arith);
        }))

  -- The last entry leaves an empty queue.
  last_one-Holds :
      (pq : Pq A)
      → IsQueue pq
      → pq.length ≡ 1
      → Gives
          (Holds (λ x. holds pq x && not (x == pq.q 0)) pq)
          (bubble_down (less_by key) (refilled pq 0) 0)
  unfolding put holds key_at
  last_one-Holds pq v h = rw (bubble_down_nothing (less_by key) (refilled pq 0) (omega arith)) (
      gives (record {
        queue = record {
          indexes = record {
            room = omega arith;
            small = v.indexes.small;
            indexed = λ c hc. absurd (omega arith);
          };
          order = λ c h1 h2 h3. absurd (omega arith);
        };
        entries = λ x. ground (arith, v.indexes.indexed 0 (omega arith));
        items = refl;
      }))

  -- ngtcp2_pq_pop on a queue that is not empty returns, takes out the top entry and no other, and leaves a queue.
  pub pq_pop-Holds :
      (pq : Pq A)
      → IsQueue pq
      → 0 < pq.length
      → Gives (Holds (λ x. holds pq x && not (x == pq.q 0)) pq) (pq_pop (less_by key) pq)
  unfolding pq_pop
  pq_pop-Holds pq v h =
      let room = v.indexes.room in
      rw (slot_ok pq (pq.length - 1) (omega arith)) (
        Gives-cases (ltb 0 pq.length) (λ e. absurd (ground arith))
          (λ e. elim (ltb-cases 1 pq.length) [
            | inl (more, _) ↦ refilled_root-Holds pq v more
            | inr (one, _) ↦ last_one-Holds pq v (omega arith)
          ]))

  root_least :
      (fuel : ℕ) (pq : Pq A) (i : ℕ)
      → IsQueue pq
      → i < fuel
      → i < pq.length
      → key (pq.item (pq.q 0)) ≤ key (pq.item (pq.q i))
  unfolding key_at
  root_least zero pq i v f hi = absurd (omega arith)
  root_least (suc fuel) pq zero v f hi = omega arith
  root_least (suc fuel) pq (suc i) v f hi =
      let above = root_least fuel pq (parent_of (suc i)) v (omega arith) (omega arith) in
      omega (arith, above, v.order (suc i) (omega arith) hi (omega arith))

  -- ngtcp2_pq_top gives an entry of the queue whose number no entry of the queue undercuts.
  pub pq_top_least :
      (pq : Pq A)
      → IsQueue pq
      → 0 < pq.length
      → (pq_top pq ≡ ok (some (pq.q 0)))
        × (holds pq (pq.q 0) ≡ true)
        × ((x : ℕ) → holds pq x ≡ true → key (pq.item (pq.q 0)) ≤ key (pq.item x))
  unfolding pq_top holds
  pq_top_least pq v h =
      let room = v.indexes.room in
      (
        ground arith,
        ground (arith, v.indexes.indexed 0 h),
        λ x hx.
            ground
              (arith, root_least (suc (pq.index x)) pq (pq.index x) v (omega arith) (ground arith)),
      )
