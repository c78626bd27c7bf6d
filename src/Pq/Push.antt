-- ===== src/Pq/Push.antt =====
-- `ngtcp2_pq_push`: the entry comes in, with the array grown where it was full.
use polygon.Base.{
  ℕ, suc, ◌*◌, ◌%◌, ◌≤◌, ◌<◌, ◌^◌, true, false, ◌||◌, ◌==◌, ◌≡◌, max, refl, ok, err, nomem, arith,
  leb-cases, inl, inr,
}
use polygon.Base.Gives.{Gives, Gives-weaken}
use polygon.Pq.{Pq, set, put, grow, pq_push}
use polygon.Pq.Order.{IsIndexed, holds, less_by, key_at, slot_ok}
use polygon.Pq.Up.{IsRising, bubble_up-IsSifted}
use polygon.Pq.Queue.{IsQueue, Holds, sifted-Holds}

module _ {ℓ} {A : Type ℓ} (key : A → ℕ) where
  -- The array with room for one more entry, and the entry in it.
  abbrev appended : Pq A → ℕ → Pq A
  appended pq item = record (put pq pq.length item) { length = suc pq.length }

  -- The array after `grow`.
  record Growth (pq : Pq A) : Type ℓ where
    cap : ℕ
    room : pq.length < cap
    small : cap < 2 ^ 61
    ran : grow true pq ≡ ok (record pq { capacity = cap })

  growth : (pq : Pq A) → IsIndexed pq → pq.capacity < 2 ^ 60 → Growth pq
  unfolding grow
  growth pq h few =
      let room = h.room in
      let small = h.small in
      elim (leb-cases pq.capacity pq.length) [
        | inl (full, e) ↦ record {
          cap = max 4 (pq.capacity * 2 % 2 ^ 64);
          room = omega arith;
          small = omega arith;
          ran = rw e refl;
        }
        | inr (free, e) ↦ record { cap = pq.capacity; room = free; small = small; ran = rw e refl }
      ]

  module _ (pq : Pq A) (cap item : ℕ) (v : IsQueue key pq) (room : pq.length < cap)
      (small : cap < 2 ^ 61) (new : holds pq item ≡ false) where
    abbrev wider : Pq A
    wider = appended (record pq { capacity = cap }) item

    wider-IsRising : IsRising key wider pq.length
    unfolding put set holds key_at
    wider-IsRising = record {
      indexes = record {
        room = omega arith;
        small = small;
        indexed = λ c hc. ground (arith, v.indexes.indexed c);
      };
      inside = omega arith;
      edges = λ c h1 h2 h3. ground (arith, v.order c);
      across = λ c h1 h2 h3 h4. absurd (omega arith);
    }

    holds-wider : (x : ℕ) → holds wider x ≡ (holds pq x || x == item)
    unfolding put set holds
    holds-wider x = ground arith

  -- With memory at hand, ngtcp2_pq_push of an entry that is not in the queue, whose capacity is below 2 ^ 60,
  -- returns and adds that entry and no other, and leaves a queue.
  pub pq_push-Holds :
      (pq : Pq A) (item : ℕ)
      → IsQueue key pq
      → pq.capacity < 2 ^ 60
      → holds pq item ≡ false
      → Gives (Holds key (λ x. holds pq x || x == item) pq) (pq_push (less_by key) true pq item)
  unfolding pq_push put
  pq_push-Holds pq item v few new =
      let g = growth pq v.indexes few in
      let room = g.room in
      let wide : Pq A = record pq { capacity = g.cap } in
      rw (g.ran, slot_ok wide pq.length room)
        (Gives-weaken (Holds key (λ x. holds pq x || x == item) pq)
          (λ pq' s.
            sifted-Holds key (λ x. holds pq x || x == item) pq (appended wide item) pq' refl
              (holds-wider pq g.cap item v room g.small new) s)
          (bubble_up-IsSifted key (appended wide item) pq.length
            (wider-IsRising pq g.cap item v room g.small new)))

  -- Without memory a full queue is left alone, with NGTCP2_ERR_NOMEM.
  pub pq_push-nomem :
      (pq : Pq A) (item : ℕ)
      → pq.capacity ≤ pq.length
      → pq_push (less_by key) false pq item ≡ err nomem
  unfolding pq_push grow
  pq_push-nomem pq item h = ground arith
