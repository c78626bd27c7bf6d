-- ===== src/Conn/Close.antt =====
-- Closing a stream once nothing more is to be sent or received (ngtcp2_conn.c).
use polygon.Base.{
  ℕ, ◌+◌, ◌-◌, ◌^◌, Bool, ◌&&◌, ◌||◌, List, [], ◌∷◌, Option, none, some, ltb, leb, ◌==◌,
  if◌then◌else◌, ok, err, invalid_argument,
}
use polygon.Gaptr.{gaptr_first_gap_offset}
use polygon.Idtr.{Idtr, idtr_first_gap}
use polygon.Rob.{rob_first_gap_offset}
use polygon.Strm.{Strm}
use polygon.Conn.{
  Conn, Env, Act, ◌>>◌, return, modify, call, conn_local_stream, bidi_stream, conn_immediate_ack,
  stream_close,
}

abbrev pub max_varint : ℕ
max_varint = 2 ^ 62 - 1

-- The new value of `*punsent_max_remote_stream_id`. The window start that the function is given stays.
unfoldable pub handle_remote_stream_id_extension : ℕ → ℕ → Idtr → ℕ
handle_remote_stream_id_extension unsent_max window_start idtr =
    if leb unsent_max (max_varint - 4) && ltb window_start (idtr_first_gap idtr)
    then unsent_max + 4
    else unsent_max

unfoldable pub extend_remote_stream_id : ℕ → Conn → Conn
extend_remote_stream_id stream_id conn =
    if conn_local_stream conn stream_id
    then conn
    else if bidi_stream stream_id
    then record conn {
      unsent_max_remote_stream_id_bidi =
          handle_remote_stream_id_extension conn.unsent_max_remote_stream_id_bidi
            conn.remote_stream_id_bidi_window_start conn.remote_bidi_idtr;
    }
    else record conn {
      unsent_max_remote_stream_id_uni =
          handle_remote_stream_id_extension conn.unsent_max_remote_stream_id_uni
            conn.remote_stream_id_uni_window_start conn.remote_uni_idtr;
    }

abbrev pub removed : ℕ → Option Strm → Act (Unit {0})
removed stream_id none conn = (conn, err invalid_argument)
removed stream_id (some _) conn =
    (record conn { strms = λ id. if id == stream_id then none else conn.strms id }, ok tt)

-- `ngtcp2_map_remove` on the streams: NGTCP2_ERR_INVALID_ARGUMENT if there is none.
unfoldable pub remove_strm : ℕ → Act (Unit {0})
remove_strm stream_id conn = removed stream_id (conn.strms stream_id) conn

abbrev pub without : ℕ → List ℕ → List ℕ
without id [] = []
without id (x ∷ xs) = let rest = without id xs in if x == id then rest else x ∷ rest

-- `if (strm->fc_pprev) …`: the stream leaves the list of those to send MAX_STREAM_DATA for.
unfoldable pub leave_fc : Strm → Conn → Conn
leave_fc strm conn =
    if strm.queued then record conn { fc_strms = without strm.stream_id conn.fc_strms } else conn

unfoldable pub conn_close_stream : Env → Strm → ℕ → Act (Unit {0})
conn_close_stream env strm app_error_code = do
  let code = if strm.app_error_code == 0 then strm.app_error_code else app_error_code
  remove_strm strm.stream_id
  call env (stream_close strm.stream_id code)
  modify (extend_remote_stream_id strm.stream_id)
  modify (leave_fc strm)
  modify conn_immediate_ack

-- Nothing more is to come in, and nothing more is to go out.
unfoldable pub is_finished : Strm → Bool
is_finished strm =
    strm.flags.shut_rd
    && strm.flags.shut_wr
    && (strm.flags.recv_rst || rob_first_gap_offset strm.rob == strm.last_rx_offset)
    && (strm.flags.sent_rst || gaptr_first_gap_offset strm.acked_tx_offset == strm.tx_offset)

unfoldable pub conn_close_stream_if_shut_rdwr : Env → Strm → ℕ → Act (Unit {0})
conn_close_stream_if_shut_rdwr env strm app_error_code =
    if is_finished strm then conn_close_stream env strm app_error_code else return tt
