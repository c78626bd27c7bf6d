-- ===== src/Ringbuf/Tests.antt =====
-- Runs of ngtcp2_ringbuf.c on a buffer of two slots.
use polygon.Base.{ℕ, ◌+◌, ◌^◌, [], ◌∷◌, take, true, ok, ◌≡◌, ◌>>=◌, refl, arith}
use polygon.Ringbuf.{Ringbuf, ringbuf_init, popcount, ringbuf_get, ringbuf_push_front, store}
use polygon.Ringbuf.Run.{Pushes, ringbuf_init-Pushes}
use polygon.Ringbuf.Front.{
  IsRing, contents, put_front, put_front-contents, ringbuf_get-contents, nth,
}

-- A full buffer, whose first element is in its second slot.
abbrev two_slots : Ringbuf ℕ
two_slots = record { slots = λ i. i + 10; nmemb = 2; size = 8; room = 16; first = 1; len = 2 }

two_slots-IsRing : IsRing 1 two_slots
two_slots-IsRing = record {
  few = omega arith;
  slots_of = refl;
  held = omega arith;
  small = omega arith;
}

put_front_drops : contents (put_front 7 two_slots) ≡ 7 ∷ 11 ∷ []
unfolding contents put_front ringbuf_push_front store
put_front_drops = refl

put_front-contents_example :
    IsRing 1 (put_front 7 two_slots)
    × (contents (put_front 7 two_slots) ≡ take 2 (7 ∷ contents two_slots))
put_front-contents_example = put_front-contents 1 two_slots 7 two_slots-IsRing

ringbuf_get-contents_example :
    (do i ← ringbuf_get 1 two_slots; ok (two_slots.slots i)) ≡ nth 1 (contents two_slots)
ringbuf_get-contents_example = ringbuf_get-contents 1 1 two_slots two_slots-IsRing

-- A product that wraps around leaves a buffer with no room for its slots.
init_wraps : (do rb ← ringbuf_init {A = ℕ} (λ n. true) 2 (2 ^ 63) (λ i. 0); ok rb.room) ≡ ok 0
unfolding ringbuf_init popcount
init_wraps = refl

ringbuf_init-Pushes_example : Pushes {A = ℕ} 3 16 (λ n. true) (λ i. 0)
ringbuf_init-Pushes_example =
    ringbuf_init-Pushes {A = ℕ} 3 16 (λ n. true) (λ i. 0) (omega arith) (omega arith) (omega arith)
      (omega arith) refl
