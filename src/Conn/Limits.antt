-- ===== src/Conn/Limits.antt =====
-- Limits that the handlers of ngtcp2_conn.c keep, and what a repeated RST_STREAM meets.
use polygon.Base.{
  ℕ, ◌≤◌, ◌<◌, ◌^◌, false, true, not, ◌&&◌, ◌||◌, Option, none, some, ltb, leb, ◌==◌, ◌≡◌,
  if◌then◌else◌, Result, ok, err, fault, add64, sub64, final_offset, flow_control, proto,
  stream_state, stream_id, arith, inl, inr, Bool-cases,
}
use polygon.Idtr.{Idtr, idtr_open, idtr_is_open}
use polygon.Strm.{Strm}
use polygon.Conn.Keeps.{Keeps, Keeps->>, Keeps-if, if-keeps, if_or_keeps, Keeps-fail_if, Keeps-call}
use polygon.Conn.{
  Conn, Env, Event, Act, ◌>>◌, ◌>>=◌, modify, get, return, call, conn_local_stream, bidi_stream,
  conn_max_data_violated, conn_find_stream, put_strm, conn_immediate_ack, fail_if, stream_close,
}
use polygon.Conn.Close.{
  conn_close_stream_if_shut_rdwr, conn_close_stream, remove_strm, removed, extend_remote_stream_id,
  leave_fc, is_finished,
}
use polygon.Conn.Receive.{check_stream_id, idtr_of, put_idtr}
use polygon.Conn.Control.{rst_known, rst_unknown, rst_found, conn_recv_rst_stream}

-- The peer has not sent more than the connection allows.
abbrev pub IsWithin : Conn → Type 0
IsWithin conn = (conn.rx_offset ≤ conn.max_rx_offset) × (conn.max_rx_offset < 2 ^ 63)

removed-IsWithin : (id : ℕ) (found : Option Strm) → Keeps IsWithin (removed id found)
removed-IsWithin id none conn h = h
removed-IsWithin id (some strm) conn h = h

extend-IsWithin : (id : ℕ) → Keeps IsWithin (modify (extend_remote_stream_id id))
unfolding extend_remote_stream_id
extend-IsWithin id conn h = elim (Bool-cases (conn_local_stream conn id)) [
  | inl e ↦ rw e h
  | inr e ↦ elim (Bool-cases (bidi_stream id)) [ inl e' ↦ rw (e, e') h | inr e' ↦ rw (e, e') h ]
]

pub leave-IsWithin : (strm : Strm) → Keeps IsWithin (modify (leave_fc strm))
unfolding leave_fc
leave-IsWithin strm conn h = elim (Bool-cases strm.queued) [ inl e ↦ rw e h | inr e ↦ rw e h ]

pub call-IsWithin : (env : Env) (event : Event) → Keeps IsWithin (call env event)
call-IsWithin = Keeps-call IsWithin (λ conn events h. h)

close-IsWithin :
    (env : Env) (strm : Strm) (code : ℕ) → Keeps IsWithin (conn_close_stream env strm code)
unfolding conn_close_stream remove_strm conn_immediate_ack
close-IsWithin env strm code =
    let reported = if strm.app_error_code == 0 then strm.app_error_code else code in
    let last : Act (Unit {0}) = modify (leave_fc strm) >> modify conn_immediate_ack in
    let after : Act (Unit {0}) = modify (extend_remote_stream_id strm.stream_id) >> last in
    let told : Act (Unit {0}) = call env (stream_close strm.stream_id reported) >> after in
    Keeps->> IsWithin (remove_strm strm.stream_id) told
      (λ conn. removed-IsWithin strm.stream_id (conn.strms strm.stream_id) conn)
      (Keeps->> IsWithin (call env (stream_close strm.stream_id reported)) after
        (call-IsWithin env (stream_close strm.stream_id reported))
        (Keeps->> IsWithin (modify (extend_remote_stream_id strm.stream_id)) last
          (extend-IsWithin strm.stream_id)
          (Keeps->> IsWithin (modify (leave_fc strm)) (modify conn_immediate_ack)
            (leave-IsWithin strm) (λ conn h. h))))

pub close_if-IsWithin :
    (env : Env) (strm : Strm) (code : ℕ)
    → Keeps IsWithin (conn_close_stream_if_shut_rdwr env strm code)
unfolding conn_close_stream_if_shut_rdwr
close_if-IsWithin env strm code =
    Keeps-if IsWithin (is_finished strm) (conn_close_stream env strm code) (return tt)
      (close-IsWithin env strm code) (λ conn h. h)

-- What the test of the connection's window lets through fits.
pub counted-IsWithin :
    (conn : Conn) (datalen : ℕ)
    → IsWithin conn
    → conn_max_data_violated conn datalen ≡ false
    → add64 conn.rx_offset datalen ≤ conn.max_rx_offset
unfolding conn_max_data_violated
counted-IsWithin conn datalen h e = ground (arith, h.0, h.1)

rst_known-IsWithin :
    (env : Env) (strm : Strm) (code final : ℕ) → Keeps IsWithin (rst_known env strm code final)
unfolding rst_known put_strm
rst_known-IsWithin env strm code final conn h =
    let datalen = sub64 final strm.last_rx_offset in
    let strm' : Strm = record strm {
      flags = record strm.flags { shut_rd = true; recv_rst = true };
    } in
    let counted : Conn =
      put_strm strm' (record conn { rx_offset = add64 conn.rx_offset datalen }) in
    let accept : Conn × Result (Unit {0}) = conn_close_stream_if_shut_rdwr env strm' code counted in
    let violated = conn_max_data_violated conn datalen in
    if-keeps IsWithin {A = Unit {0}}
      (if strm.flags.shut_rd
        then not (strm.last_rx_offset == final)
        else ltb final strm.last_rx_offset)
      (conn, err final_offset)
      (if ltb strm.max_rx_offset final || violated then (conn, err flow_control) else accept) h
      (if_or_keeps IsWithin {A = Unit {0}} (ltb strm.max_rx_offset final) violated
        (conn, err flow_control) accept h
        (λ e. close_if-IsWithin env strm' code counted (counted-IsWithin conn datalen h e, h.1)))

pub put_idtr-IsWithin :
    (id : ℕ) (idtr : Idtr) (conn : Conn) → IsWithin conn → IsWithin (put_idtr id idtr conn)
put_idtr-IsWithin id idtr conn h = elim (Bool-cases (bidi_stream id)) [
  | inl b ↦ rw b h
  | inr b ↦ rw b h
]

rst_unknown-IsWithin :
    (env : Env) (id final : ℕ) (is_open : Result (Unit {0}))
    → Keeps IsWithin (rst_unknown env id final is_open)
unfolding rst_unknown
rst_unknown-IsWithin env id final (err e) conn h = h
rst_unknown-IsWithin env id final fault conn h = h
rst_unknown-IsWithin env id final (ok x) conn h =
    let idtr = (idtr_open env.for_idtr (idtr_of conn id) id).0 in
    let violated = conn_max_data_violated conn final in
    if_or_keeps IsWithin {A = Unit {0}} (ltb conn.local_max_stream_data final) violated
      (conn, err flow_control)
      (record (put_idtr id idtr conn) { rx_offset = add64 conn.rx_offset final }, ok tt) h
      (λ e.
        let fits = counted-IsWithin conn final h e in
        elim (Bool-cases (bidi_stream id)) [ inl b ↦ rw b (fits, h.1) | inr b ↦ rw b (fits, h.1) ])

rst_found-IsWithin :
    (env : Env) (id code final : ℕ) (found : Option Strm)
    → Keeps IsWithin (rst_found env id code final found)
rst_found-IsWithin env id code final (some strm) conn h =
    rst_known-IsWithin env strm code final conn h
rst_found-IsWithin env id code final none conn h =
    if-keeps IsWithin (conn_local_stream conn id)
      (fail_if (not (bidi_stream id) && not (final == 0)) final_offset conn)
      (rst_unknown env id final (idtr_is_open (idtr_of conn id) id) conn)
      (Keeps-fail_if IsWithin _ final_offset conn h)
      (rst_unknown-IsWithin env id final (idtr_is_open (idtr_of conn id) id) conn h)

pub check-IsWithin : (id : ℕ) → Keeps IsWithin (check_stream_id id)
unfolding check_stream_id
check-IsWithin id conn h =
    let next_local =
      if bidi_stream id then conn.next_local_stream_id_bidi else conn.next_local_stream_id_uni in
    let max_remote =
      if bidi_stream id then conn.max_remote_stream_id_bidi else conn.max_remote_stream_id_uni in
    if-keeps IsWithin {A = Unit {0}} (conn_local_stream conn id)
      (fail_if (leb next_local id) stream_state conn) (fail_if (ltb max_remote id) stream_id conn)
      (Keeps-fail_if IsWithin (leb next_local id) stream_state conn h)
      (Keeps-fail_if IsWithin (ltb max_remote id) stream_id conn h)

-- Whatever RST_STREAM frame comes in, and whether it is accepted or refused, the bytes counted for the connection
-- stay within the limit that the peer was given, if they were before.
pub conn_recv_rst_stream-IsWithin :
    (env : Env) (id code final : ℕ) (conn : Conn)
    → IsWithin conn
    → IsWithin (conn_recv_rst_stream env id code final conn).0
unfolding conn_recv_rst_stream
conn_recv_rst_stream-IsWithin env id code final =
    let found : Conn → Act (Unit {0}) = λ c. rst_found env id code final (conn_find_stream c id) in
    let on : Act (Unit {0}) = get >>= found in
    Keeps->> IsWithin (fail_if (id == 0) proto) (check_stream_id id >> on)
      (Keeps-fail_if IsWithin (id == 0) proto)
      (Keeps->> IsWithin (check_stream_id id) on (check-IsWithin id)
        (λ conn h. rst_found-IsWithin env id code final (conn_find_stream conn id) conn h))
