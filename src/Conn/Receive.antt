-- ===== src/Conn/Receive.antt =====
-- `conn_recv_stream` of ngtcp2_conn.c: a STREAM frame comes in.
use polygon.Base.{
  ℕ, zero, suc, ◌+◌, ◌-◌, false, true, not, ◌&&◌, ◌||◌, List, [], length, drop, Option, none, some,
  ltb, leb, ◌==◌, if◌then◌else◌, max, Result, ok, err, fault, add64, sub64, proto, frame_format,
  stream_state, stream_id, final_offset, flow_control, stream_in_use, nomem,
}
use polygon.Idtr.{Idtr, idtr_open}
use polygon.Rob.{rob_data_at, rob_pop, rob_remove_prefix}
use polygon.Strm.{
  Flags, no_flags, Strm, strm_init, strm_rx_offset, strm_recv_reordering, strm_shutdown,
}
use polygon.Pkt.Frame.{Stream}
use polygon.Conn.{
  Conn, Env, Act, proceed, ◌>>=◌, ◌>>◌, return, get, modify, fail, fail_if, call, put_strm,
  conn_local_stream, bidi_stream, conn_max_data_violated, conn_find_stream, recv_stream_data,
  call_recv_stream0_data, conn_extend_max_stream_offset,
}
use polygon.Conn.Close.{max_varint, leave_fc, conn_close_stream_if_shut_rdwr}

-- A result that does not change the connection.
abbrev pub lift : {A : Type 0} → Result A → Act A
lift r conn = (conn, r)

abbrev pub only_shut_rd : Flags
only_shut_rd = record no_flags { shut_rd = true }

abbrev pub only_shut_wr : Flags
only_shut_wr = record no_flags { shut_wr = true }

-- The end of the loop of `conn_emit_pending_stream_data`: nothing is left.
abbrev pub emitted : Strm → ℕ → Act Strm
emitted strm rx_offset = lift (if rx_offset == strm_rx_offset strm then ok strm else fault)

-- The loop of `conn_emit_pending_stream_data` on fuel; it gives the stream that it leaves.
unfoldable pub emit_loop : ℕ → Env → Strm → ℕ → Act Strm
emit_loop zero env strm rx_offset = lift fault
emit_loop (suc fuel) env strm rx_offset = do
  bytes ← lift (rob_data_at strm.rob rx_offset)
  let next = add64 rx_offset (length bytes)
  let fin = strm.flags.shut_rd && next == strm.last_rx_offset
  let more = (do
    call env (recv_stream_data strm.stream_id fin bytes)
    rob ← lift (rob_pop strm.rob (sub64 next (length bytes)) (length bytes))
    modify (put_strm (record strm { rob = rob }))
    emit_loop fuel env (record strm { rob = rob }) next)
  if length bytes == 0 then emitted strm rx_offset else more

-- Each round hands out at least one byte below the first gap.
unfoldable pub conn_emit_pending_stream_data : Env → Strm → ℕ → Act Strm
conn_emit_pending_stream_data env strm rx_offset =
    emit_loop (suc (strm_rx_offset strm - rx_offset)) env strm rx_offset

-- The loop of `conn_emit_pending_stream0_data` on fuel.
unfoldable pub emit0_loop : ℕ → Env → Strm → ℕ → Act Strm
emit0_loop zero env strm rx_offset = lift fault
emit0_loop (suc fuel) env strm rx_offset = do
  bytes ← lift (rob_data_at strm.rob rx_offset)
  let next = add64 rx_offset (length bytes)
  let wider : Strm = record strm {
    unsent_max_rx_offset = add64 strm.unsent_max_rx_offset (length bytes);
  }
  let more = (do
    call_recv_stream0_data env bytes
    extended ← conn_extend_max_stream_offset wider (length bytes)
    rob ← lift (rob_pop extended.rob (sub64 next (length bytes)) (length bytes))
    modify (put_strm (record extended { rob = rob }))
    emit0_loop fuel env (record extended { rob = rob }) next)
  if length bytes == 0 then emitted strm rx_offset else more

unfoldable pub conn_emit_pending_stream0_data : Env → Strm → ℕ → Act Strm
conn_emit_pending_stream0_data env strm rx_offset =
    emit0_loop (suc (strm_rx_offset strm - rx_offset)) env strm rx_offset

-- The last part of `conn_recv_stream`: data that is next is handed out together
-- with what it makes complete, other data is kept. Data that all lies before what is next is out of bounds here.
unfoldable pub deliver : Env → Strm → ℕ → List ℕ → ℕ → Act Strm
deliver env strm offset content rx_offset =
    let ncut = rx_offset - offset in
    let bytes = drop ncut content in
    let next = add64 rx_offset (length bytes) in
    let strm' : Strm = record strm { rob = rob_remove_prefix strm.rob next } in
    let at_once0 : Act Strm = do
      modify (put_strm strm')
      call_recv_stream0_data env bytes
      conn_emit_pending_stream0_data env strm' next
    in let at_once : Act Strm = do
      modify (put_strm strm')
      call env (
          recv_stream_data strm.stream_id (strm.flags.shut_rd && next == strm.last_rx_offset) bytes)
      conn_emit_pending_stream_data env strm' next
      in let later : Act Strm = λ conn.
        let (kept, rv) = strm_recv_reordering env.rob_memory strm offset content in
        proceed (put_strm kept conn, rv) (λ _. return kept) in
        if leb offset rx_offset
        then if ltb (length content) ncut
          then lift fault
          else if strm.stream_id == 0
          then at_once0
          else at_once
        else later

-- The checks that a frame's stream may be used; those for local unidirectional streams are further below.
unfoldable pub check_stream_id : ℕ → Act (Unit {0})
check_stream_id id conn =
    let bidi = bidi_stream id in
    let next_local =
      if bidi then conn.next_local_stream_id_bidi else conn.next_local_stream_id_uni in
    let max_remote =
      if bidi then conn.max_remote_stream_id_bidi else conn.max_remote_stream_id_uni in
    if conn_local_stream conn id
    then fail_if (leb next_local id) stream_state conn
    else fail_if (ltb max_remote id) stream_id conn

abbrev pub idtr_of : Conn → ℕ → Idtr
idtr_of conn id = if bidi_stream id then conn.remote_bidi_idtr else conn.remote_uni_idtr

abbrev pub put_idtr : ℕ → Idtr → Conn → Conn
put_idtr id idtr conn =
    if bidi_stream id
    then record conn { remote_bidi_idtr = idtr }
    else record conn { remote_uni_idtr = idtr }

-- `ngtcp2_conn_init_stream`
unfoldable pub conn_init_stream : Env → ℕ → Act Strm
conn_init_stream env id conn =
    proceed
      (
        conn,
        strm_init env.for_acked env.rob_memory id no_flags conn.local_max_stream_data
            conn.remote_max_stream_data,
      )
      (λ strm conn'.
        let insert : Conn × Result Strm = elim (conn'.strms id) [
          | none ↦ (put_strm strm conn', ok strm)
          | some _ ↦ (conn', fault)
        ] in
        if env.for_map then insert else (conn', err nomem))

-- The stream is made that `strm` has not been found for; it is closed for writing if it is unidirectional.
unfoldable pub make_strm : Env → ℕ → Act Strm
make_strm env id = do
  fail_if (not env.for_strm) nomem
  strm ← conn_init_stream env id
  let strm' = if bidi_stream id then strm else strm_shutdown strm only_shut_wr
  modify (put_strm strm')
  return strm'

-- The stream of a frame, where one has been found or not; none if the frame is to be ignored. An error of
-- `ngtcp2_idtr_open` but NGTCP2_ERR_STREAM_IN_USE fails the assertion.
abbrev pub found_or_made : Env → ℕ → Option Strm → Act (Option Strm)
found_or_made env id (some strm) conn = (conn, ok (some strm))
found_or_made env id none conn =
    let (idtr, rv) = idtr_open env.for_idtr (idtr_of conn id) id in
    let conn' = put_idtr id idtr conn in
    let opened : Conn × Result (Option Strm) = elim rv [
      | ok _ ↦ proceed (make_strm env id conn') (λ strm. return (some strm))
      | err e ↦ elim e [ stream_in_use ↦ (conn', ok none) | _ ↦ (conn', fault) ]
      | fault ↦ (conn', fault)
    ] in
    if conn_local_stream conn id then (conn, ok none) else opened

unfoldable pub find_or_make : Env → ℕ → Act (Option Strm)
find_or_make env id conn = found_or_made env id (conn_find_stream conn id) conn

-- Flow control: what is new in the frame must fit into the windows of the stream and of the connection.
unfoldable pub account : Strm → ℕ → Act (Unit {0})
account strm fr_end_offset conn =
    let datalen = fr_end_offset - strm.last_rx_offset in
    let count : Conn × Result (Unit {0}) =
      if conn_max_data_violated conn datalen
      then (conn, err flow_control)
      else (record conn { rx_offset = add64 conn.rx_offset datalen }, ok tt) in
    if ltb strm.max_rx_offset fr_end_offset
    then (conn, err flow_control)
    else if ltb strm.last_rx_offset fr_end_offset && not (strm.stream_id == 0)
    then count
    else (conn, ok tt)

-- `strm->last_rx_offset` and the flags after a frame that ends the stream.
abbrev pub ended : Strm → ℕ → Strm
ended strm fr_end_offset =
    strm_shutdown (record strm { last_rx_offset = fr_end_offset }) only_shut_rd

-- The frame has the FIN bit.
unfoldable pub recv_fin : Env → Stream → Strm → ℕ → Act (Unit {0})
recv_fin env fr strm fr_end_offset =
    let strm' = ended strm fr_end_offset in
    let apart : Strm = record strm' { queued = false } in
    let complete : Act (Unit {0}) = do
      call env (recv_stream_data strm.stream_id true [])
      conn_close_stream_if_shut_rdwr env apart 0
    in let take_data : Act (Unit {0}) = do
      left ← deliver env apart fr.offset fr.content (strm_rx_offset apart)
      conn_close_stream_if_shut_rdwr env left 0
      in let open_still : Act (Unit {0}) = do
        modify (leave_fc strm')
        modify (put_strm apart)
        if fr_end_offset == strm_rx_offset apart then complete else take_data
        in let first_time : Act (Unit {0}) = do
          modify (put_strm strm')
          if strm.flags.stop_sending
              then conn_close_stream_if_shut_rdwr env strm' strm'.app_error_code
              else open_still
          in if strm.flags.shut_rd
            then fail_if (not (strm.last_rx_offset == fr_end_offset)) final_offset
            else if ltb fr_end_offset strm.last_rx_offset
            then fail final_offset
            else first_time

-- The frame does not have the FIN bit.
unfoldable pub recv_more : Env → Stream → Strm → ℕ → Act (Unit {0})
recv_more env fr strm fr_end_offset =
    let strm' : Strm = record strm { last_rx_offset = max strm.last_rx_offset fr_end_offset } in
    let take_data : Act (Unit {0}) = do
      left ← deliver env strm' fr.offset fr.content (strm_rx_offset strm')
      conn_close_stream_if_shut_rdwr env left 0
    in let goes_on : Act (Unit {0}) = do
      modify (put_strm strm')
      if leb fr_end_offset (strm_rx_offset strm') || strm.flags.stop_sending
          then return tt
          else take_data
      in if strm.flags.shut_rd && ltb strm.last_rx_offset fr_end_offset
        then fail final_offset
        else goes_on

-- What follows once the stream is found.
unfoldable pub recv_into : Env → Stream → Strm → Act (Unit {0})
recv_into env fr strm = do
  let fr_end_offset = fr.offset + length fr.content
  account strm fr_end_offset
  if fr.fin then recv_fin env fr strm fr_end_offset else recv_more env fr strm fr_end_offset

unfoldable pub conn_recv_stream : Env → Stream → Act (Unit {0})
conn_recv_stream env fr = do
  fail_if (fr.stream_id == 0 && fr.fin) proto
  fail_if (not fr.fin && length fr.content == 0) frame_format
  check_stream_id fr.stream_id
  conn ← get
  fail_if
      (conn_local_stream conn fr.stream_id
        && not (bidi_stream fr.stream_id)
        && not (add64 fr.offset (length fr.content) == 0))
      final_offset
  fail_if (ltb (sub64 max_varint (length fr.content)) fr.offset) proto
  found ← find_or_make env fr.stream_id
  elim found [ none ↦ return tt | some strm ↦ recv_into env fr strm ]
