-- ===== src/Pkt/Reset.antt =====
-- Stateless resets: `ngtcp2_pkt_write_stateless_reset` and `ngtcp2_pkt_decode_stateless_reset`.
pub mod RoundTrip
use polygon.Base.{
  ℕ, ◌+◌, ◌-◌, List, ◌++◌, length, ltb, Result, ok, err, fault, ◌>>=◌, ◌>>◌, fail_if, nobuf,
  invalid_argument, min, sub64,
}
use polygon.Conv.{advance, cpymem}
use polygon.Pkt.Header.{PktHd, encode_hd_short}

-- `ngtcp2_pkt_stateless_reset`, whose `randlen` is the length of `rand`.
pub record StatelessReset : Type 0 where
  pub stateless_reset_token : List ℕ
  pub rand : List ℕ

unfoldable pub decode_stateless_reset : List ℕ → Result StatelessReset
decode_stateless_reset payload = do
  fail_if (ltb (length payload) 16) invalid_argument
  let randlen = length payload - 16
  rand ← cpymem randlen payload
  p ← advance randlen payload
  token ← cpymem 16 p
  ok (record { stateless_reset_token = token; rand = rand })

unfoldable pub write_stateless_reset : ℕ → PktHd → List ℕ → List ℕ → Result (ℕ × List ℕ)
write_stateless_reset destlen hd stateless_reset_token rand = do
  (nwrite, header) ← encode_hd_short destlen hd
  let left = sub64 destlen nwrite
  fail_if (ltb left 16) nobuf
  filler ← cpymem (min (left - 16) (length rand)) rand
  token ← cpymem 16 stateless_reset_token
  let bytes = header ++ (filler ++ token)
  ok (length bytes, bytes)
