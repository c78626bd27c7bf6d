-- ===== src/Conn/Local.antt =====
-- What the application asks of the streams of a connection (ngtcp2_conn.c): opening, shutting down, wider windows.
use polygon.Base.{
  ℕ, ◌+◌, ◌-◌, false, true, not, ◌||◌, Option, none, some, ltb, ◌==◌, if◌then◌else◌, add64,
  invalid_argument, stream_id_blocked, stream_not_found, nomem,
}
use polygon.Strm.{Strm, strm_shutdown}
use polygon.Conn.{
  Conn, Env, Act, ◌>>=◌, ◌>>◌, return, get, modify, fail, fail_if, put_strm, conn_find_stream,
  conn_extend_max_stream_offset,
}
use polygon.Conn.Close.{max_varint}
use polygon.Conn.Receive.{conn_init_stream, only_shut_rd}
use polygon.Conn.Control.{conn_rst_stream, conn_stop_sending, stopping}

-- The identifier of the new stream is given.
unfoldable pub conn_open_bidi_stream : Env → Act ℕ
conn_open_bidi_stream env = do
  conn ← get
  let id = conn.next_local_stream_id_bidi
  fail_if (ltb conn.max_local_stream_id_bidi id) stream_id_blocked
  fail_if (not env.for_strm) nomem
  _ ← conn_init_stream env id
  modify (λ c. record c { next_local_stream_id_bidi = add64 id 4 })
  return id

unfoldable pub conn_open_uni_stream : Env → Act ℕ
conn_open_uni_stream env = do
  conn ← get
  let id = conn.next_local_stream_id_uni
  fail_if (ltb conn.max_local_stream_id_uni id) stream_id_blocked
  fail_if (not env.for_strm) nomem
  strm ← conn_init_stream env id
  modify (put_strm (strm_shutdown strm only_shut_rd))
  modify (λ c. record c { next_local_stream_id_uni = add64 id 4 })
  return id

-- `conn_shutdown_stream_write`; it gives the stream that it leaves.
unfoldable pub shutdown_write : Env → Strm → ℕ → Act Strm
shutdown_write env strm app_error_code =
    let strm' : Strm = record strm {
      flags = record strm.flags { shut_wr = true; sent_rst = true };
      app_error_code = app_error_code;
    } in
    let send : Act Strm = do
      modify (put_strm strm')
      conn_rst_stream env strm' app_error_code
      return strm'
    in if strm.flags.sent_rst then return strm else send

-- `conn_shutdown_stream_read`; it gives the stream that it leaves.
unfoldable pub shutdown_read : Env → Strm → ℕ → Act Strm
shutdown_read env strm app_error_code =
    let strm' : Strm = record strm {
      flags = record strm.flags { stop_sending = true };
      app_error_code = app_error_code;
    } in
    let send : Act Strm = do
      modify (put_strm strm')
      conn_stop_sending env strm' app_error_code
      return (record strm' { queued = false })
    in if strm.flags.stop_sending then return strm else send

abbrev pub need_stream : Option Strm → Act Strm
need_stream (some strm) = return strm
need_stream none = fail stream_not_found

-- The stream that the application names for a shutdown.
abbrev pub named_stream : ℕ → ℕ → Act Strm
named_stream id app_error_code = do
  fail_if (id == 0 || app_error_code == stopping) invalid_argument
  conn ← get
  need_stream (conn_find_stream conn id)

unfoldable pub conn_shutdown_stream : Env → ℕ → ℕ → Act (Unit {0})
conn_shutdown_stream env id app_error_code = do
  strm ← named_stream id app_error_code
  strm' ← shutdown_read env strm app_error_code
  _ ← shutdown_write env strm' app_error_code
  return tt

unfoldable pub conn_shutdown_stream_write : Env → ℕ → ℕ → Act (Unit {0})
conn_shutdown_stream_write env id app_error_code = do
  strm ← named_stream id app_error_code
  _ ← shutdown_write env strm app_error_code
  return tt

unfoldable pub conn_shutdown_stream_read : Env → ℕ → ℕ → Act (Unit {0})
conn_shutdown_stream_read env id app_error_code = do
  strm ← named_stream id app_error_code
  _ ← shutdown_read env strm app_error_code
  return tt

-- `ngtcp2_conn_extend_max_stream_offset`
unfoldable pub extend_max_stream_offset : ℕ → ℕ → Act (Unit {0})
extend_max_stream_offset id datalen = do
  conn ← get
  strm ← need_stream (conn_find_stream conn id)
  _ ← conn_extend_max_stream_offset strm datalen
  return tt

-- `ngtcp2_conn_extend_max_offset`
unfoldable pub extend_max_offset : ℕ → Conn → Conn
extend_max_offset datalen conn =
    if ltb max_varint datalen || ltb (max_varint - datalen) conn.unsent_max_rx_offset
    then record conn { unsent_max_rx_offset = max_varint }
    else record conn { unsent_max_rx_offset = conn.unsent_max_rx_offset + datalen }
