-- ===== src/Base/Outcome.antt =====
-- What a C function of the library gives: a value, one of the NGTCP2_ERR codes of
-- Polygon/lib/includes/ngtcp2/ngtcp2.h, or a fault (a read or pointer out of bounds, a failed assert).
use Prim.Native.Nat.{ℕ, ◌+◌, ◌-◌, ◌%◌, ◌^◌, ◌<◌}
use mathlib.Core.Bool.{Bool, true, false}

pub data Error : Type 0 where
  invalid_argument unknown_pkt_type nobuf proto invalid_state ack_frame : Error
  stream_in_use flow_control stream_id final_offset frame_format nomem : Error
  stream_id_blocked stream_state stream_not_found : Error
  tls_handshake tls_fatal_alert_generated tls_fatal_alert_received : Error
  callback_failure internal : Error

pub data Result {ℓ} (A : Type ℓ) : Type ℓ where
  ok : A → Result A
  err : Error → Result A
  fault : Result A

infixl 5 ◌>>=◌ ◌>>◌
abbrev pub ◌>>=◌ {ℓ κ} : {A : Type ℓ} {B : Type κ} → Result A → (A → Result B) → Result B
ok a >>= f = f a
err e >>= f = err e
fault >>= f = fault

abbrev pub ◌>>◌ {ℓ} : {B : Type ℓ} → Result (Unit {0}) → Result B → Result B
m >> k = m >>= λ _. k

-- `assert(b)`
abbrev pub assert : Bool → Result (Unit {0})
assert true = ok tt
assert false = fault

-- `if (b) return e;`
abbrev pub fail_if : Bool → Error → Result (Unit {0})
fail_if true e = err e
fail_if false e = ok tt

-- Addition of `size_t` and `uint64_t`.
abbrev pub add64 : ℕ → ℕ → ℕ
add64 a b = (a + b) % 2 ^ 64

-- Subtraction of `size_t` and `uint64_t`.
abbrev pub sub64 : ℕ → ℕ → ℕ
sub64 a b = (a + 2 ^ 64 - b) % 2 ^ 64

abbrev pub IsByte : ℕ → Type 0
IsByte b = b < 256

abbrev pub IsU16 : ℕ → Type 0
IsU16 n = n < 2 ^ 16

abbrev pub IsU32 : ℕ → Type 0
IsU32 n = n < 2 ^ 32

abbrev pub IsU64 : ℕ → Type 0
IsU64 n = n < 2 ^ 64

-- No assertion failed, and nothing was read out of bounds.
abbrev pub IsSafe {ℓ} : {A : Type ℓ} → Result A → Type 0
IsSafe (ok a) = Unit
IsSafe (err e) = Unit
IsSafe fault = ⊥
