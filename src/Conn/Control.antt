-- ===== src/Conn/Control.antt =====
-- The frames of ngtcp2_conn.c that carry no stream data: RST_STREAM, STOP_SENDING, the MAX frames, PING and PONG.
use polygon.Base.{
  ℕ, false, true, not, ◌&&◌, ◌||◌, List, ◌∷◌, length, Option, none, some, ltb, ◌==◌, if◌then◌else◌,
  max, Result, ok, err, fault, add64, sub64, proto, frame_format, final_offset, flow_control,
  stream_in_use, nomem,
}
use polygon.Idtr.{idtr_open, idtr_is_open}
use polygon.Strm.{Strm}
use polygon.Pkt.Frame.{rst_stream, stop_sending, pong}
use polygon.Conn.{
  Conn, Env, Act, proceed, ◌>>=◌, ◌>>◌, return, get, modify, fail_if, call, put_strm,
  conn_local_stream, bidi_stream, conn_max_data_violated, conn_find_stream, extend_max_stream_id,
}
use polygon.Conn.Close.{leave_fc, conn_close_stream_if_shut_rdwr}
use polygon.Conn.Receive.{check_stream_id, idtr_of, put_idtr, make_strm}

-- NGTCP2_STOPPING
abbrev pub stopping : ℕ
stopping = 0

-- `conn_rst_stream`
unfoldable pub conn_rst_stream : Env → Strm → ℕ → Act (Unit {0})
conn_rst_stream env strm app_error_code = do
  fail_if (not env.for_frame) nomem
  modify (λ conn. record conn {
    frq = rst_stream strm.stream_id app_error_code strm.tx_offset ∷ conn.frq;
  })

-- `conn_stop_sending`
unfoldable pub conn_stop_sending : Env → Strm → ℕ → Act (Unit {0})
conn_stop_sending env strm app_error_code = do
  fail_if (not env.for_frame) nomem
  modify (λ conn. record conn { frq = stop_sending strm.stream_id app_error_code ∷ conn.frq })
  modify (leave_fc strm)
  modify (put_strm (record strm { queued = false }))

-- The identifier counts as used; what `ngtcp2_idtr_open` returns is not looked at.
abbrev pub open_id : Env → ℕ → Conn → Conn
open_id env id conn = put_idtr id (idtr_open env.for_idtr (idtr_of conn id) id).0 conn

-- RST_STREAM for a stream that there is not: `is_open` is what `ngtcp2_idtr_is_open` gives.
unfoldable pub rst_unknown : Env → ℕ → ℕ → Result (Unit {0}) → Act (Unit {0})
rst_unknown env id final (ok _) conn =
    if ltb conn.local_max_stream_data final || conn_max_data_violated conn final
    then (conn, err flow_control)
    else let c = open_id env id conn in (record c { rx_offset = add64 conn.rx_offset final }, ok tt)
rst_unknown env id final (err e) conn = (conn, ok tt)
rst_unknown env id final fault conn = (conn, fault)

-- RST_STREAM for a stream.
unfoldable pub rst_known : Env → Strm → ℕ → ℕ → Act (Unit {0})
rst_known env strm app_error_code final conn =
    let datalen = sub64 final strm.last_rx_offset in
    let strm' : Strm = record strm {
      flags = record strm.flags { shut_rd = true; recv_rst = true };
    } in
    let counted = put_strm strm' (record conn { rx_offset = add64 conn.rx_offset datalen }) in
    let accept = conn_close_stream_if_shut_rdwr env strm' app_error_code counted in
    let wrong =
      if strm.flags.shut_rd
      then not (strm.last_rx_offset == final)
      else ltb final strm.last_rx_offset in
    if wrong
    then (conn, err final_offset)
    else if ltb strm.max_rx_offset final || conn_max_data_violated conn datalen
    then (conn, err flow_control)
    else accept

abbrev pub rst_found : Env → ℕ → ℕ → ℕ → Option Strm → Act (Unit {0})
rst_found env id app_error_code final (some strm) conn =
    rst_known env strm app_error_code final conn
rst_found env id app_error_code final none conn =
    let unknown = rst_unknown env id final (idtr_is_open (idtr_of conn id) id) conn in
    if conn_local_stream conn id
    then fail_if (not (bidi_stream id) && not (final == 0)) final_offset conn
    else unknown

-- The fields of the frame: stream id, application error code, final offset.
unfoldable pub conn_recv_rst_stream : Env → ℕ → ℕ → ℕ → Act (Unit {0})
conn_recv_rst_stream env id app_error_code final = do
  fail_if (id == 0) proto
  check_stream_id id
  conn ← get
  rst_found env id app_error_code final (conn_find_stream conn id)

abbrev pub stop_found : Env → ℕ → ℕ → Option Strm → Act (Unit {0})
stop_found env id app_error_code (some strm) = do
  conn_rst_stream env strm stopping
  let strm' : Strm = record strm { flags = record strm.flags { shut_wr = true; sent_rst = true } }
  modify (put_strm strm')
  conn_close_stream_if_shut_rdwr env strm' app_error_code
stop_found env id app_error_code none = λ conn.
    let unknown : Conn × Result (Unit {0}) = elim (idtr_is_open (idtr_of conn id) id) [
      | ok _ ↦ (open_id env id conn, ok tt)
      | err e ↦ (conn, ok tt)
      | fault ↦ (conn, fault)
    ] in
    if conn_local_stream conn id then (conn, ok tt) else unknown

unfoldable pub conn_recv_stop_sending : Env → ℕ → ℕ → Act (Unit {0})
conn_recv_stop_sending env id app_error_code = do
  fail_if (id == 0) proto
  check_stream_id id
  conn ← get
  stop_found env id app_error_code (conn_find_stream conn id)

-- The stream of a MAX_STREAM_DATA frame: here an error of `ngtcp2_idtr_open` but NGTCP2_ERR_STREAM_IN_USE is not
-- looked at.
abbrev pub limit_found : Env → ℕ → Option Strm → Act (Option Strm)
limit_found env id (some strm) conn = (conn, ok (some strm))
limit_found env id none conn =
    let (idtr, rv) = idtr_open env.for_idtr (idtr_of conn id) id in
    let conn' = put_idtr id idtr conn in
    let made = proceed (make_strm env id conn') (λ strm. return (some strm)) in
    let opened : Conn × Result (Option Strm) = elim rv [
      | ok _ ↦ made
      | err e ↦ elim e [ stream_in_use ↦ (conn', ok none) | _ ↦ made ]
      | fault ↦ (conn', fault)
    ] in
    if conn_local_stream conn id then (conn, ok none) else opened

unfoldable pub conn_recv_max_stream_data : Env → ℕ → ℕ → Act (Unit {0})
conn_recv_max_stream_data env id max_stream_data = do
  check_stream_id id
  conn ← get
  found ← limit_found env id (conn_find_stream conn id)
  elim found [
    | none ↦ return tt
    | some strm ↦
        modify (put_strm (record strm { max_tx_offset = max strm.max_tx_offset max_stream_data }))
  ]

unfoldable pub conn_recv_max_data : ℕ → Conn → Conn
conn_recv_max_data max_data conn = record conn { max_tx_offset = max conn.max_tx_offset max_data }

unfoldable pub conn_recv_max_stream_id : Env → ℕ → Act (Unit {0})
conn_recv_max_stream_id env id = do
  modify (λ conn.
      if bidi_stream id
      then record conn { max_local_stream_id_bidi = max conn.max_local_stream_id_bidi id }
      else record conn { max_local_stream_id_uni = max conn.max_local_stream_id_uni id })
  call env (extend_max_stream_id id)

unfoldable pub conn_recv_pong : List ℕ → Act (Unit {0})
conn_recv_pong payload = fail_if (length payload == 0) frame_format

unfoldable pub conn_recv_ping : Env → List ℕ → Act (Unit {0})
conn_recv_ping env payload conn =
    if length payload == 0
    then (conn, ok tt)
    else if env.for_frame
    then (record conn { frq = pong payload ∷ conn.frq }, ok tt)
    else (conn, err nomem)
