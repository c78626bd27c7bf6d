-- ===== src/Conn/Twice.antt =====
-- What a repeated RST_STREAM frame meets in `conn_recv_rst_stream`.
use polygon.Base.{
  ℕ, ◌<◌, Bool, true, false, ◌||◌, Option, some, Error, ok, err, ltb, ◌==◌, ◌≡◌, ◌≢◌, refl, ◌∙◌, ap,
  arith, inl, inr, Bool-cases, add64, sub64, final_offset,
}
use polygon.Strm.{Strm}
use polygon.Conn.{
  Conn, Env, fail_if, conn_find_stream, conn_max_data_violated, put_strm, conn_local_stream,
}
use polygon.Conn.Close.{is_finished, conn_close_stream_if_shut_rdwr}
use polygon.Conn.Receive.{check_stream_id}
use polygon.Conn.Control.{conn_recv_rst_stream, rst_known}

fail_if-elsewhere :
    (b : Bool) (e : Error) (conn conn' : Conn) → fail_if b e conn' ≡ (conn', (fail_if b e conn).1)
fail_if-elsewhere true e conn conn' = refl
fail_if-elsewhere false e conn conn' = refl

-- The connection with other streams and another count.
abbrev moved : Conn → (ℕ → Option Strm) → ℕ → Conn
moved conn strms rx_offset = record conn { strms = strms; rx_offset = rx_offset }

check-moved :
    (id : ℕ) (conn : Conn) (strms : ℕ → Option Strm) (rx_offset : ℕ)
    → check_stream_id id (moved conn strms rx_offset)
      ≡ (moved conn strms rx_offset, (check_stream_id id conn).1)
unfolding check_stream_id conn_local_stream
check-moved id conn strms rx_offset = elim (Bool-cases (conn_local_stream conn id)) [
  | inl e ↦ rw e (fail_if-elsewhere _ _ conn (moved conn strms rx_offset))
  | inr e ↦ rw e (fail_if-elsewhere _ _ conn (moved conn strms rx_offset))
]

abbrev was_reset : Strm → Strm
was_reset strm = record strm { flags = record strm.flags { shut_rd = true; recv_rst = true } }

recv_known :
    (env : Env) (id code final : ℕ) (conn : Conn) (strm : Strm)
    → id ≢ 0
    → (check_stream_id id conn).1 ≡ ok tt
    → conn.strms id ≡ some strm
    → conn_recv_rst_stream env id code final conn ≡ rst_known env strm code final conn
unfolding conn_recv_rst_stream conn_find_stream
recv_known env id code final conn strm h1 h2 h3 =
    let real : (id == 0) ≡ false = ground (arith, h1) in
    let same : check_stream_id id conn ≡ (conn, ok tt) =
      check-moved id conn conn.strms conn.rx_offset ∙ rw h2 refl in
    rw (real, same, h3) refl

first_known :
    (env : Env) (code final : ℕ) (conn : Conn) (strm : Strm)
    → strm.flags.shut_rd ≡ false
    → strm.flags.shut_wr ≡ false
    → strm.last_rx_offset < final
    → (rst_known env strm code final conn).1 ≡ ok tt
    → (rst_known env strm code final conn).0
      ≡ put_strm
          (was_reset strm)
          (record conn { rx_offset = add64 conn.rx_offset (sub64 final strm.last_rx_offset) })
unfolding rst_known conn_close_stream_if_shut_rdwr is_finished
first_known env code final conn strm h1 h2 lt h =
    let wrong : ltb final strm.last_rx_offset ≡ false = ground arith in
    let over =
      ltb strm.max_rx_offset final
      || conn_max_data_violated conn (sub64 final strm.last_rx_offset) in
    elim (Bool-cases over) [
      | inl e ↦ absurd (ground (arith, rw (h1, wrong, e) at h))
      | inr e ↦ rw (h1, wrong, e, h2) refl
    ]

again_known :
    (env : Env) (code final : ℕ) (conn : Conn) (strm : Strm)
    → strm.last_rx_offset < final
    → (rst_known env (was_reset strm) code final conn).1 ≡ err final_offset
unfolding rst_known
again_known env code final conn strm lt =
    let differs : (strm.last_rx_offset == final) ≡ false = ground arith in rw differs refl

-- A stream that is still open for writing here. An RST_STREAM frame for it, whose final offset lies behind the data
-- that came in, is accepted; the same frame, coming again, gets FINAL_OFFSET.
pub conn_recv_rst_stream-again :
    (env : Env) (id code final : ℕ) (conn : Conn) (strm : Strm)
    → id ≢ 0
    → conn.strms id ≡ some strm
    → strm.stream_id ≡ id
    → strm.flags.shut_rd ≡ false
    → strm.flags.shut_wr ≡ false
    → strm.last_rx_offset < final
    → (check_stream_id id conn).1 ≡ ok tt
    → (conn_recv_rst_stream env id code final conn).1 ≡ ok tt
    → (conn_recv_rst_stream env id code final (conn_recv_rst_stream env id code final conn).0).1
      ≡ err final_offset
unfolding put_strm
conn_recv_rst_stream-again env id code final conn strm h1 h2 h3 h4 h5 lt h6 h =
    let first = recv_known env id code final conn strm h1 h6 h2 in
    let counted : Conn =
      put_strm (was_reset strm)
        (record conn { rx_offset = add64 conn.rx_offset (sub64 final strm.last_rx_offset) }) in
    let after : (conn_recv_rst_stream env id code final conn).0 ≡ counted =
      ap (λ r. r.0) first ∙ first_known env code final conn strm h4 h5 lt (rw first at h) in
    let same : (id == strm.stream_id) ≡ true = ground arith in
    let stored : counted.strms id ≡ some (was_reset strm) = rw same refl in
    let passes : (check_stream_id id counted).1 ≡ ok tt =
      ap (λ r. r.1) (check-moved id conn counted.strms counted.rx_offset) ∙ h6 in
    rw (after, recv_known env id code final counted (was_reset strm) h1 passes stored)
      (again_known env code final counted strm lt)
