-- ===== src/Ringbuf/Run.antt =====
-- A ring buffer from `ngtcp2_ringbuf_init` on: what it holds after some pushes, and that its slots have room.
use polygon.Base.{
  ℕ, zero, suc, ◌+◌, ◌*◌, ◌%◌, ◌^◌, ◌≤◌, ◌<◌, Bool, true, List, [], ◌∷◌, take, ◌==◌, ok, ◌≡◌, refl,
  ap, ◌∙◌, sym, arith, bit_and, sub64, add64,
}
use polygon.Base.Digits.{pow-pos}
use native.Mathlib.Nat.{mod-lt, mod-eq_of_lt, pow-le-pow_right, mul-le-mul_right, suc-mul}
use polygon.Ringbuf.{Ringbuf, ringbuf_init, popcount, ringbuf_push_front, ringbuf_get, store}
use polygon.Ringbuf.Index.{mask_slots, popcount-pow}
use polygon.Ringbuf.Front.{IsRing, contents, put_front, put_front-contents, tabulate}

module _ {A : Type 0} where
  -- The elements are pushed one after the other, the last of them standing first in the list.
  unfoldable pub push_all : List A → Ringbuf A → Ringbuf A
  push_all [] rb = rb
  push_all (x ∷ xs) rb = put_front x (push_all xs rb)

  -- A slot lies within the bytes that were allocated.
  abbrev pub HasRoom : Ringbuf A → ℕ → Type 0
  HasRoom rb i = i * rb.size + rb.size ≤ rb.room

  -- What a buffer of `2 ^ k` slots holds after any pushes, and that the slots that it gives have room.
  pub record Pushed (k : ℕ) (rb : Ringbuf A) (xs : List A) : Type 0 where
    pub sequence : contents (push_all xs rb) ≡ take (2 ^ k) xs
    pub next_room : HasRoom (push_all xs rb) (ringbuf_push_front (push_all xs rb)).1
    pub get_room :
        (offset i : ℕ) → ringbuf_get offset (push_all xs rb) ≡ ok i → HasRoom (push_all xs rb) i

  pub record Pushes (k size : ℕ) (malloc : ℕ → Bool) (memory : ℕ → A) : Type 0 where
    pub made : Ringbuf A
    pub success : ringbuf_init malloc (2 ^ k) size memory ≡ ok made
    pub pushed : (xs : List A) → Pushed k made xs

  take-take : (m : ℕ) (xs : List A) → take m (take (suc m) xs) ≡ take m xs
  take-take zero xs = refl
  take-take (suc m) [] = refl
  take-take (suc m) (x ∷ xs) = ap (λ l. x ∷ l) (take-take m xs)

  take_front : (n : ℕ) (x : A) (xs : List A) → take n (x ∷ take n xs) ≡ take n (x ∷ xs)
  take_front zero x xs = refl
  take_front (suc m) x xs = ap (λ l. x ∷ l) (take-take m xs)

  take_none : (n : ℕ) → Path (List A) (take n []) []
  take_none zero = refl
  take_none (suc n) = refl

  push_all-contents :
      (k : ℕ) (rb : Ringbuf A) (xs : List A)
      → IsRing k rb
      → contents rb ≡ []
      → IsRing k (push_all xs rb) × (contents (push_all xs rb) ≡ take (2 ^ k) xs)
  unfolding push_all
  push_all-contents k rb [] r e = (r, e ∙ sym (take_none (2 ^ k)))
  push_all-contents k rb (x ∷ xs) r e =
      let (r', e') = push_all-contents k rb xs r e in
      let (r2, e2) = put_front-contents k (push_all xs rb) x r' in
      (r2, e2 ∙ rw (r'.slots_of, e') (take_front (2 ^ k) x xs))

  push_all-same :
      (rb : Ringbuf A) (xs : List A)
      → ((push_all xs rb).size ≡ rb.size) × ((push_all xs rb).room ≡ rb.room)
  unfolding push_all put_front ringbuf_push_front store
  push_all-same rb [] = (refl, refl)
  push_all-same rb (x ∷ xs) = push_all-same rb xs

  slot_room :
      (k : ℕ) (rb : Ringbuf A) (i : ℕ)
      → IsRing k rb
      → rb.room ≡ 2 ^ k * rb.size
      → i < rb.nmemb
      → HasRoom rb i
  slot_room k rb i r e lt =
      let slots = r.slots_of in
      let below : suc i ≤ 2 ^ k = omega arith in
      omega (arith, e, mul-le-mul_right rb.size below, suc-mul i rb.size)

  masked_slot :
      (k : ℕ) (rb : Ringbuf A) (x : ℕ) → IsRing k rb → bit_and x (sub64 rb.nmemb 1) < rb.nmemb
  masked_slot k rb x r =
      let pos : 0 < 2 ^ k = pow-pos k in
      let slots = r.slots_of in
      let low : x % rb.nmemb < rb.nmemb = mod-lt x (omega arith) in
      omega (arith, mask_slots k rb.nmemb x r.few r.slots_of, low)

  got_slot :
      (k : ℕ) (rb : Ringbuf A) (offset i : ℕ)
      → IsRing k rb
      → ringbuf_get offset rb ≡ ok i
      → i < rb.nmemb
  unfolding ringbuf_get
  got_slot k rb offset i r h = ground (arith, h, masked_slot k rb (add64 rb.first offset) r)

  ring-Pushed :
      (k : ℕ) (rb : Ringbuf A) (xs : List A)
      → IsRing k rb
      → contents rb ≡ []
      → rb.room ≡ 2 ^ k * rb.size
      → Pushed k rb xs
  ring-Pushed k rb xs r e wide =
      let (r', sequence) = push_all-contents k rb xs r e in
      let (size, room) = push_all-same rb xs in
      let after = push_all xs rb in
      let wide' : after.room ≡ 2 ^ k * after.size = room ∙ wide ∙ ap (λ n. 2 ^ k * n) (sym size) in
      record {
        sequence = sequence;
        next_room =
            unfold ringbuf_push_front in
            slot_room k after _ r' wide' (masked_slot k after (sub64 after.first 1) r');
        get_room = λ offset i h. slot_room k after i r' wide' (got_slot k after offset i r' h);
      }

  -- A buffer that is made for a power of two of elements, where there is memory for them and their bytes can be
  -- counted, holds the last elements that were pushed, as many as it has slots, the last one first; the slots of the
  -- next push and of every element lie within the memory that was asked for.
  pub ringbuf_init-Pushes :
      (k size : ℕ) (malloc : ℕ → Bool) (memory : ℕ → A)
      → k ≤ 31
      → 1 ≤ size
      → size ≤ 2 ^ 63
      → 2 ^ k * size < 2 ^ 64
      → malloc (2 ^ k * size) ≡ true
      → Pushes k size malloc memory
  ringbuf_init-Pushes k size malloc memory hk h1 h2 h3 given =
      let rb : Ringbuf A = record {
        slots = memory;
        nmemb = 2 ^ k;
        size = size;
        room = 2 ^ k * size;
        first = sub64 size 1;
        len = 0;
      } in
      let bounded : 2 ^ k ≤ 2 ^ 31 = pow-le-pow_right (omega arith) hk in
      let few : 2 ^ k % 2 ^ 32 ≡ 2 ^ k = mod-eq_of_lt (omega arith) in
      let one_bit : (popcount 32 (2 ^ k % 2 ^ 32) == 1) ≡ true =
        rw few (ap (λ x. x == 1) (popcount-pow k (omega arith))) in
      let whole : 2 ^ k * size % 2 ^ 64 ≡ 2 ^ k * size = mod-eq_of_lt h3 in
      record {
        made = rb;
        success = unfold ringbuf_init in rw (one_bit, whole, given) refl;
        pushed = λ xs.
            ring-Pushed k rb xs
              (record { few = hk; slots_of = refl; held = omega arith; small = omega arith })
              (unfold contents tabulate in refl) refl;
      }
