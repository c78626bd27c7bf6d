-- ===== src/Ringbuf/Front.antt =====
-- A ring buffer as the sequence of its elements: a push puts an element in front, and drops the last one if
-- the buffer is full.
use polygon.Base.{
  ℕ, zero, suc, ◌+◌, ◌%◌, ◌^◌, ◌≤◌, ◌<◌, List, [], ◌∷◌, true, take, ltb, ◌==◌, if◌then◌else◌,
  Result, ok, fault, ◌>>=◌, ◌≡◌, refl, ap, ◌∙◌, sym, arith, bit_and, min, sub64, add64, ltb-cases,
  le→ltb_false, lt→ltb, inl, inr,
}
use polygon.Base.Digits.{pow-pos}
use native.Mathlib.Nat.{mod-lt, mod-eq_of_lt, pow-le-pow_right}
use polygon.Ringbuf.{Ringbuf, ringbuf_push_front, ringbuf_get, store}
use polygon.Ringbuf.Index.{other_slot, equal, mask_slots, step_over}

-- A buffer of `2 ^ k` slots.
pub record IsRing {ℓ} {A : Type ℓ} (k : ℕ) (rb : Ringbuf A) : Type 0 where
  pub few : k ≤ 31
  pub slots_of : rb.nmemb ≡ 2 ^ k
  pub held : rb.len ≤ rb.nmemb
  pub small : rb.first < 2 ^ 63

module _ {ℓ} {A : Type ℓ} where
  -- The element `i` steps behind the first, and the sequence of all of them.
  unfoldable pub element : Ringbuf A → ℕ → A
  element rb i = rb.slots ((rb.first + i) % rb.nmemb)

  unfoldable pub tabulate : ℕ → (ℕ → A) → List A
  tabulate zero f = []
  tabulate (suc n) f = f 0 ∷ tabulate n (λ i. f (suc i))

  unfoldable pub contents : Ringbuf A → List A
  unfolding tabulate element
  contents rb = tabulate rb.len (element rb)

  tabulate-same :
      (n : ℕ) (f g : ℕ → A) → ((i : ℕ) → i < n → f i ≡ g i) → tabulate n f ≡ tabulate n g
  unfolding tabulate
  tabulate-same zero f g same = refl
  tabulate-same (suc n) f g same = rw (same 0 (omega arith)) (
      ap (λ l. g 0 ∷ l)
        (tabulate-same n (λ i. f (suc i)) (λ i. g (suc i)) (λ i h. same (suc i) (omega arith))))

  take-tabulate : (n m : ℕ) (f : ℕ → A) → take n (tabulate m f) ≡ tabulate (min n m) f
  unfolding tabulate
  take-tabulate zero m f = let nothing : min 0 m ≡ 0 = omega arith in rw nothing refl
  take-tabulate (suc n) zero f = let nothing : min (suc n) 0 ≡ 0 = omega arith in rw nothing refl
  take-tabulate (suc n) (suc m) f =
      let more : min (suc n) (suc m) ≡ suc (min n m) = omega arith in
      rw more (ap (λ l. f 0 ∷ l) (take-tabulate n m (λ i. f (suc i))))

  -- `a` in front of the elements that `f` gives.
  in_front : A → (ℕ → A) → ℕ → A
  in_front a f zero = a
  in_front a f (suc i) = f i

  -- The push and the write to the slot that it gives.
  unfoldable pub put_front : A → Ringbuf A → Ringbuf A
  put_front a rb = let (rb', i) = ringbuf_push_front rb in store i a rb'

  put_front-IsRing : (k : ℕ) (rb : Ringbuf A) (a : A) → IsRing k rb → IsRing k (put_front a rb)
  unfolding put_front ringbuf_push_front store
  put_front-IsRing k rb a r =
      let pos : 0 < 2 ^ k = pow-pos k in
      let bounded : 2 ^ k ≤ 2 ^ 31 = pow-le-pow_right (omega arith) r.few in
      let masked : bit_and (sub64 rb.first 1) (sub64 rb.nmemb 1) ≡ sub64 rb.first 1 % rb.nmemb =
        mask_slots k rb.nmemb (sub64 rb.first 1) r.few r.slots_of in
      let hf : sub64 rb.first 1 % rb.nmemb < rb.nmemb = mod-lt (sub64 rb.first 1) (omega arith) in
      record {
        few = r.few;
        slots_of = r.slots_of;
        held = omega arith;
        small = omega (arith, masked);
      }

  pushed-element :
      (k : ℕ) (rb : Ringbuf A) (a : A) (i : ℕ)
      → IsRing k rb
      → i < rb.nmemb
      → element (put_front a rb) i ≡ in_front a (element rb) i
  unfolding element put_front ringbuf_push_front store in_front
  pushed-element k rb a zero r h =
      let f = sub64 rb.first 1 % rb.nmemb in
      let hf : f < rb.nmemb = mod-lt (sub64 rb.first 1) (omega arith) in
      let here : f + 0 ≡ f = omega arith in
      let same : ((f + 0) % rb.nmemb == f) ≡ true =
        ap (λ x. x % rb.nmemb == f) here ∙ ap (λ x. x == f) (mod-eq_of_lt hf) ∙ equal f in
      rw (mask_slots k rb.nmemb (sub64 rb.first 1) r.few r.slots_of, same) refl
  pushed-element k rb a (suc i) r h =
      let f = sub64 rb.first 1 % rb.nmemb in
      let hf : f < rb.nmemb = mod-lt (sub64 rb.first 1) (omega arith) in
      rw
        (
          mask_slots k rb.nmemb (sub64 rb.first 1) r.few r.slots_of,
          other_slot rb.nmemb f i hf h,
          step_over k rb.nmemb rb.first i r.few r.small r.slots_of,
        )
        refl

  put_front-len :
      (k : ℕ) (rb : Ringbuf A) (a : A)
      → IsRing k rb
      → (put_front a rb).len ≡ min rb.nmemb (suc rb.len)
  unfolding put_front ringbuf_push_front store
  put_front-len k rb a r =
      let bounded : 2 ^ k ≤ 2 ^ 31 = pow-le-pow_right (omega arith) r.few in
      let next : add64 rb.len 1 ≡ suc rb.len = omega arith in ap (min rb.nmemb) next

  put_front-sequence :
      (k : ℕ) (rb : Ringbuf A) (a : A)
      → IsRing k rb
      → contents (put_front a rb) ≡ take rb.nmemb (a ∷ contents rb)
  unfolding contents tabulate in_front
  put_front-sequence k rb a r =
      ap (λ n. tabulate n (element (put_front a rb))) (put_front-len k rb a r)
      ∙ tabulate-same (min rb.nmemb (suc rb.len)) (element (put_front a rb))
          (in_front a (element rb)) (λ i h. pushed-element k rb a i r (omega arith))
      ∙ sym (take-tabulate rb.nmemb (suc rb.len) (in_front a (element rb)))

  -- A push puts the element that the caller then writes in front of the others; a full buffer drops its last
  -- one. The buffer stays well formed.
  pub put_front-contents :
      (k : ℕ) (rb : Ringbuf A) (a : A)
      → IsRing k rb
      → IsRing k (put_front a rb) × (contents (put_front a rb) ≡ take rb.nmemb (a ∷ contents rb))
  put_front-contents k rb a r = (put_front-IsRing k rb a r, put_front-sequence k rb a r)

  -- The element at an index, or a fault behind the last one.
  unfoldable pub nth : ℕ → List A → Result A
  nth i [] = fault
  nth zero (x ∷ xs) = ok x
  nth (suc i) (x ∷ xs) = nth i xs

  nth-tabulate :
      (i n : ℕ) (f : ℕ → A) → nth i (tabulate n f) ≡ (if ltb i n then ok (f i) else fault)
  unfolding nth tabulate
  nth-tabulate zero zero f = refl
  nth-tabulate (suc i) zero f = rw (le→ltb_false (suc i) 0 (omega arith)) refl
  nth-tabulate zero (suc n) f = rw (lt→ltb 0 (suc n) (omega arith)) refl
  nth-tabulate (suc i) (suc n) f = nth-tabulate i n (λ j. f (suc j)) ∙ ground arith

  -- `ringbuf_get` leads to the element of the sequence at that offset, and asserts that there is one.
  pub ringbuf_get-contents :
      (k offset : ℕ) (rb : Ringbuf A)
      → IsRing k rb
      → (do i ← ringbuf_get offset rb; ok (rb.slots i)) ≡ nth offset (contents rb)
  unfolding ringbuf_get contents element
  ringbuf_get-contents k offset rb r =
      let bounded : 2 ^ k ≤ 2 ^ 31 = pow-le-pow_right (omega arith) r.few in
      elim (ltb-cases offset rb.len) [
        | inl (lt, e) ↦
            let whole : add64 rb.first offset ≡ rb.first + offset = omega arith in
            let masked : bit_and (add64 rb.first offset) (sub64 rb.nmemb 1)
                ≡ (rb.first + offset) % rb.nmemb =
              mask_slots k rb.nmemb (add64 rb.first offset) r.few r.slots_of
              ∙ ap (λ x. x % rb.nmemb) whole in
            rw
              (e, masked, nth-tabulate offset rb.len (λ i. rb.slots ((rb.first + i) % rb.nmemb)), e)
              refl
        | inr (ge, e) ↦
            rw (e, nth-tabulate offset rb.len (λ i. rb.slots ((rb.first + i) % rb.nmemb)), e) refl
      ]
