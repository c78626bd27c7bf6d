-- ===== src/Pq/Remove.antt =====
-- `ngtcp2_pq_remove`: an entry is taken out from anywhere.
use polygon.Base.{
  ℕ, suc, ◌-◌, ◌<◌, Bool, true, ◌&&◌, not, ltb, ◌==◌, ◌≡◌, refl, arith, if◌then◌else◌, sub64,
}
use polygon.Base.Gives.{Gives, gives, Gives-weaken, Gives-cases}
use polygon.Pq.{Pq, set, put, parent_of, pq_remove, bubble_down, bubble_up}
use polygon.Pq.Order.{IsSifted, holds, less_by, key_at, slot_ok}
use polygon.Pq.Up.{bubble_up-IsSifted}
use polygon.Pq.Down.{bubble_down-IsSifted}
use polygon.Pq.Queue.{
  IsQueue, Holds, Holds-same, sifted-Holds, refilled, refilled-IsIndexed, holds-refilled,
  key_at-refilled, shortened, shortened-Holds, pq_pop-Holds,
}

module _ {ℓ} {A : Type ℓ} (key : A → ℕ) where
  -- The last entry takes the place of the one in slot `i`, and moves down or up from there.
  refilled-IsSifted :
      (pq : Pq A) (i : ℕ) (further : Bool)
      → IsQueue key pq
      → 0 < i
      → suc i < pq.length
      → further ≡ ltb (key_at key pq i) (key_at key pq (pq.length - 1))
      → Gives (IsSifted key 0 (refilled key pq i)) (
          if further
          then bubble_down (less_by key) (refilled key pq i) i
          else bubble_up (less_by key) (refilled key pq i) i)
  refilled-IsSifted pq i further v pos hi same =
      let at = key_at-refilled key pq i v.indexes hi in
      let inner = refilled-IsIndexed key pq i v.indexes hi in
      Gives-cases further
        (λ e. bubble_up-IsSifted key (refilled key pq i) i (record {
          indexes = inner;
          inside = omega arith;
          edges = λ c h1 h2 h3. ground (arith, at c, at (parent_of c), v.order c);
          across = λ c h1 h2 h3 h4. ground (arith, at c, at (parent_of i), v.order c, v.order i);
        }))
        (λ e. bubble_down-IsSifted key 0 (refilled key pq i) i (record {
          indexes = inner;
          inside = omega arith;
          edges = λ c h1 h2 h3 h4. ground (arith, at c, at (parent_of c), v.order c);
          across = λ c h1 h2 h3 h4 h5. ground (arith, at c, at (parent_of i), v.order c, v.order i);
        }))

  -- ngtcp2_pq_remove of an entry of the queue returns, takes out that entry and no other, and leaves a queue.
  pub pq_remove-Holds :
      (pq : Pq A) (item : ℕ)
      → IsQueue key pq
      → holds pq item ≡ true
      → Gives (Holds key (λ x. holds pq x && not (x == item)) pq) (pq_remove (less_by key) pq item)
  unfolding pq_remove
  pq_remove-Holds pq item v h =
      let i = pq.index item in
      let room = v.indexes.room in
      let inside : i < pq.length = unfold holds in ground arith in
      let found : pq.q i ≡ item = unfold holds in ground arith in
      let last : sub64 pq.length 1 ≡ pq.length - 1 = omega (arith, v.indexes.small) in
      let same : (pq.q i == item) ≡ true = ground arith in
      let kept : ℕ → Bool = λ x. holds pq x && not (x == item) in
      let left = refilled key pq i in
      rw (last, slot_ok pq i (omega arith), slot_ok pq (pq.length - 1) (omega arith), same)
        (Gives-cases (i == 0)
          (λ e1.
            Gives-cases (i == pq.length - 1)
              (λ e2.
                Gives-weaken (Holds key kept pq)
                  (λ pq' s.
                    sifted-Holds key kept pq left pq' (unfold put in refl)
                      (λ x. rw found at (holds-refilled key pq i v.indexes (ground arith) x)) s)
                  (refilled-IsSifted pq i (less_by key (left.item item) (left.item (left.q i))) v
                    (ground arith) (ground arith) (unfold put set less_by key_at in ground arith)))
              (λ e2. gives (
                Holds-same key (λ x. holds pq x && not (x == pq.q (pq.length - 1))) kept pq
                  (shortened key pq) (λ x. ground arith) (shortened-Holds key pq v (omega arith)))))
          (λ e1.
            Gives-weaken (Holds key kept pq)
              (λ pq'.
                Holds-same key (λ x. holds pq x && not (x == pq.q 0)) kept pq pq'
                  (λ x. ground arith))
              (pq_pop-Holds key pq v (omega arith))))
