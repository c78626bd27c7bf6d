-- ===== src/Ringbuf.antt =====
-- Polygon/lib/ngtcp2_ringbuf.c. The buffer is the function from the index of a slot to what is in it; a
-- pointer to a slot is its index, and the caller's write through it is `store`.
pub mod Front
pub mod Run
mod Index
mod Tests
use polygon.Base.{
  ℕ, zero, suc, ◌+◌, ◌*◌, ◌^◌, ◌/◌, ◌%◌, Bool, not, ltb, leb, ◌==◌, if◌then◌else◌, Result, ok, err,
  fault, ◌>>=◌, ◌>>◌, assert, fail_if, add64, sub64, nomem, bit_and, min,
}

pub record Ringbuf {ℓ} (A : Type ℓ) : Type ℓ where
  pub slots : ℕ → A
  pub nmemb : ℕ
  pub size : ℕ
  -- the bytes that were allocated for the slots
  pub room : ℕ
  pub first : ℕ
  pub len : ℕ

-- `__builtin_popcount`, on a number of `w` bits.
unfoldable pub popcount : ℕ → ℕ → ℕ
popcount zero n = 0
popcount (suc w) n = n % 2 + popcount w (n / 2)

module _ {ℓ} {A : Type ℓ} where
  -- `malloc` says whether there are so many bytes, and `memory` is what they hold. The product wraps around as
  -- `size_t` does.
  unfoldable pub ringbuf_init : (ℕ → Bool) → ℕ → ℕ → (ℕ → A) → Result (Ringbuf A)
  ringbuf_init malloc nmemb size memory = do
    assert (popcount 32 (nmemb % 2 ^ 32) == 1)
    let room = nmemb * size % 2 ^ 64
    fail_if (not (malloc room)) nomem
    ok (record {
      slots = memory;
      nmemb = nmemb;
      size = size;
      room = room;
      first = sub64 size 1;
      len = 0;
    })

  -- The state, and the slot that the new first element goes to.
  unfoldable pub ringbuf_push_front : Ringbuf A → Ringbuf A × ℕ
  ringbuf_push_front rb =
      let first = bit_and (sub64 rb.first 1) (sub64 rb.nmemb 1) in
      (record rb { first = first; len = min rb.nmemb (add64 rb.len 1) }, first)

  unfoldable pub store : ℕ → A → Ringbuf A → Ringbuf A
  store i a rb = record rb { slots = λ j. if j == i then a else rb.slots j }

  unfoldable pub ringbuf_resize : ℕ → Ringbuf A → Result (Ringbuf A)
  ringbuf_resize len rb = do assert (leb len rb.nmemb); ok (record rb { len = len })

  unfoldable pub ringbuf_get : ℕ → Ringbuf A → Result ℕ
  ringbuf_get offset rb = do
    assert (ltb offset rb.len)
    ok (bit_and (add64 rb.first offset) (sub64 rb.nmemb 1))

  abbrev pub ringbuf_len : Ringbuf A → ℕ
  ringbuf_len rb = rb.len
