-- ===== src/Pq/Update.antt =====
-- `ngtcp2_pq_update`: a callback changes the items, and the heap is built again if it says so.
use polygon.Base.{
  ℕ, zero, suc, ◌+◌, ◌≤◌, Bool, false, ◌&&◌, ◌||◌, leb, ◌≡◌, refl, ◌∙◌, arith, if◌then◌else◌,
}
use polygon.Base.Gives.{Gives, gives, Gives-weaken, Gives-cases, Gives->>=}
use polygon.Pq.{Pq, parent_of, set, update_items, heapify, pq_update}
use polygon.Pq.Order.{
  IsIndexed, IsMoved-refl, IsMoved-trans, IsSifted, IsHeapFrom, holds, less_by, key_at, slot_ok,
}
use polygon.Pq.Down.{bubble_down-IsSifted}
use polygon.Pq.Queue.{IsQueue}

module _ {A : Type 0} (key : A → ℕ) where
  -- Building the heap from the last slot down.
  heapify-IsSifted :
      (i : ℕ) (pq : Pq A)
      → IsIndexed pq
      → i ≤ pq.length
      → IsHeapFrom key i pq
      → Gives (IsSifted key 0 pq) (heapify (less_by key) i pq)
  unfolding heapify
  heapify-IsSifted zero pq h hi v = gives (record { moved = IsMoved-refl pq h; order = v })
  heapify-IsSifted (suc i) pq h hi v =
      Gives->>=
        (bubble_down-IsSifted key i pq i (record {
          indexes = h;
          inside = omega arith;
          edges = λ c h1 h2 h3 h4. v c h1 h2 (ground arith);
          across = λ c h1 h2 h3 h4 h5. absurd (omega arith);
        }))
        (λ pq' s.
          Gives-weaken (IsSifted key 0 pq)
            (λ pq'' t. record {
              moved = IsMoved-trans pq pq' pq'' s.moved t.moved;
              order = t.order;
            })
            (heapify-IsSifted i pq' s.moved.indexes (omega (arith, s.moved.size)) s.order))

  module _ (fun : A → Bool × A) where
    -- The item of `x` after the callback has seen the entries from slot `i` on.
    abbrev seen_from : ℕ → Pq A → ℕ → A
    seen_from i pq x = if holds pq x && leb i (pq.index x) then (fun (pq.item x)).1 else pq.item x

    -- What the calls of the callback leave.
    record IsUpdated (i : ℕ) (rv : Bool) (pq : Pq A) (r : Bool × Pq A) : Type 0 where
      array : r.1.q ≡ pq.q
      size : r.1.length ≡ pq.length
      space : r.1.capacity ≡ pq.capacity
      indexes : r.1.index ≡ pq.index
      items : (x : ℕ) → r.1.item x ≡ seen_from i pq x
      told : r.0 ≡ false → rv ≡ false
      quiet : r.0 ≡ false → (x : ℕ) → key (r.1.item x) ≡ key (pq.item x)

    update_items-IsUpdated :
        (n i : ℕ) (rv : Bool) (pq : Pq A)
        → IsIndexed pq
        → ((a : A) → (fun a).0 ≡ false → key (fun a).1 ≡ key a)
        → n + i ≡ pq.length
        → Gives (IsUpdated i rv pq) (update_items fun n i rv pq)
    unfolding update_items holds
    update_items-IsUpdated zero i rv pq h honest e = gives (record {
      array = refl;
      size = refl;
      space = refl;
      indexes = refl;
      items = λ x. ground arith;
      told = λ same. same;
      quiet = λ same x. refl;
    })
    update_items-IsUpdated (suc n) i rv pq h honest e =
        let room = h.room in
        let entry = pq.q i in
        let answer = fun (pq.item entry) in
        let pq' : Pq A = record pq { item = set pq.item entry answer.1 } in
        let h' : IsIndexed pq' = record { room = room; small = h.small; indexed = h.indexed } in
        rw (slot_ok pq i (omega arith)) (
          Gives-weaken (IsUpdated i rv pq)
            (λ r s. record {
              array = s.array;
              size = s.size;
              space = s.space;
              indexes = s.indexes;
              items = λ x. s.items x ∙ unfold set in ground (arith, h.indexed i (omega arith));
              told = λ same. ground (arith, s.told same);
              quiet = λ same x.
                  s.quiet same x
                  ∙ unfold set in ground (arith, s.told same, honest (pq.item entry));
            })
            (update_items-IsUpdated n (suc i) (rv || answer.0) pq' h' honest (omega arith)))

    -- After an update: a queue again, of the same entries, each of them given to the callback once.
    pub record Updated (pq pq' : Pq A) : Type 0 where
      queue : IsQueue key pq'
      entries : (x : ℕ) → holds pq' x ≡ holds pq x
      items : (x : ℕ) → pq'.item x ≡ (if holds pq x then (fun (pq.item x)).1 else pq.item x)

    module _ (pq : Pq A) (v : IsQueue key pq) (r : Bool × Pq A) (u : IsUpdated 0 false pq r) where
      updated-IsIndexed : IsIndexed r.1
      updated-IsIndexed = record {
        room = rw (u.size, u.space) v.indexes.room;
        small = rw u.space v.indexes.small;
        indexed = λ c hc. rw (u.indexes, u.array) (v.indexes.indexed c (omega (arith, u.size)));
      }

      built_again-Updated : (pq' : Pq A) → IsSifted key 0 r.1 pq' → Updated pq pq'
      built_again-Updated pq' s = record {
        queue = record { indexes = s.moved.indexes; order = s.order };
        entries = λ x. s.moved.entries x ∙ unfold holds in rw (u.array, u.size, u.indexes) refl;
        items = λ x. rw s.moved.items (u.items x ∙ ground arith);
      }

      quiet-Updated : r.0 ≡ false → Updated pq r.1
      quiet-Updated same = built_again-Updated r.1 (record {
        moved = IsMoved-refl r.1 updated-IsIndexed;
        order = λ c h1 h2 h3.
            unfold key_at in
            rw (u.quiet same (r.1.q c), u.quiet same (r.1.q (parent_of c)), u.array)
              (unfold key_at in v.order c h1 (omega (arith, u.size)) h3);
      })

    -- ngtcp2_pq_update returns and leaves a queue of the same entries, each of whose items has gone through the
    -- callback once, provided that the callback tells when it changes the number that `less` compares.
    pub pq_update-Updated :
        (pq : Pq A)
        → IsQueue key pq
        → ((a : A) → (fun a).0 ≡ false → key (fun a).1 ≡ key a)
        → Gives (Updated pq) (pq_update (less_by key) fun pq)
    unfolding pq_update
    pq_update-Updated pq v honest =
        Gives->>= (update_items-IsUpdated pq.length 0 false pq v.indexes honest (omega arith))
          (λ r u.
            Gives-cases r.0 (λ e. gives (quiet-Updated pq v r u e))
              (λ e. Gives-weaken (Updated pq) (built_again-Updated pq v r u) (
                heapify-IsSifted r.1.length r.1 (updated-IsIndexed pq v r u) (omega arith)
                  (λ c h1 h2 h3. absurd (omega arith)))))
