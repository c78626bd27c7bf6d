-- ===== src/Pkt/Reset/RoundTrip.antt =====
-- A stateless reset that is written is read back.
use polygon.Base.{
  ℕ, ◌+◌, ◌-◌, ◌≤◌, List, ◌++◌, length, take, min, ok, ◌≡◌, arith, ◌>>=◌, length-append, take_ge,
  take-length-append, drop-length-append, IsU64,
}
use polygon.Conv.{advance}
use polygon.Conv.Reader.{advance-eq, cpymem-eq}
use polygon.Pkt.Header.{PktHd, encode_hd_short}
use polygon.Pkt.Reset.{decode_stateless_reset, write_stateless_reset}

encode_hd_short-length :
    (outlen n : ℕ) (hd : PktHd) (bytes : List ℕ)
    → encode_hd_short outlen hd ≡ ok (n, bytes)
    → (length bytes ≡ n) × (n ≤ outlen)
unfolding encode_hd_short
encode_hd_short-length outlen n hd bytes e = ground arith

decode_stateless_reset-append :
    (filler token : List ℕ)
    → length token ≡ 16
    → decode_stateless_reset (filler ++ token)
      ≡ ok (record { stateless_reset_token = token; rand = filler })
unfolding decode_stateless_reset
decode_stateless_reset-append filler token h =
    let total : length (filler ++ token) ≡ length filler + 16 =
      omega (arith, length-append filler token) in
    let left : length (filler ++ token) - 16 ≡ length filler = omega arith in
    let whole : take 16 token ≡ token = take_ge 16 token (omega arith) in
    ground (
      arith,
      cpymem-eq (length filler) (filler ++ token),
      advance-eq (length filler) (filler ++ token),
      cpymem-eq 16 token,
      take-length-append filler token,
      drop-length-append filler token,
    )

-- A stateless reset is written if it has room for the header and the token, with as much of the random
-- bytes as fits; what is written behind the header is read back as those bytes and the token.
pub decode_stateless_reset-write_stateless_reset :
    (destlen k : ℕ) (hd : PktHd) (header token rand : List ℕ)
    → length token ≡ 16
    → IsU64 destlen
    → encode_hd_short destlen hd ≡ ok (k, header)
    → k + 16 ≤ destlen
    → (do
      (n, bytes) ← write_stateless_reset destlen hd token rand
      payload ← advance k bytes
      decode_stateless_reset payload)
      ≡ ok (record {
        stateless_reset_token = token;
        rand = take (min (destlen - k - 16) (length rand)) rand;
      })
unfolding write_stateless_reset
decode_stateless_reset-write_stateless_reset destlen k hd header token rand ht hd64 e room =
    let m = min (destlen - k - 16) (length rand) in
    let whole : take 16 token ≡ token = take_ge 16 token (omega arith) in
    let (len, fits) = encode_hd_short-length destlen k hd header e in
    ground (
      arith,
      cpymem-eq m rand (omega arith),
      cpymem-eq 16 token (omega arith),
      advance-eq k (header ++ (take m rand ++ token)),
      length-append header (take m rand ++ token),
      drop-length-append header (take m rand ++ token),
      decode_stateless_reset-append (take m rand) token ht,
    )
