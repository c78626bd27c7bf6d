-- ===== src/Conn/Handing.antt =====
-- The bytes counted for the connection stay within its limit while data is counted and handed out.
use polygon.Base.{
  ℕ, zero, suc, ◌-◌, false, not, ◌&&◌, List, [], ◌∷◌, ◌++◌, length, drop, Option, none, some, ltb,
  leb, ◌==◌, if◌then◌else◌, Error, Result, ok, err, add64, sub64, flow_control,
}
use polygon.Rob.{rob_data_at, rob_pop, rob_remove_prefix}
use polygon.Strm.{Strm, strm_rx_offset, strm_recv_reordering}
use polygon.Conn.{
  Conn, Env, Act, ◌>>◌, return, modify, call, put_strm, conn_max_data_violated, recv_stream_data,
  recv_stream0_data, stream0_error, call_recv_stream0_data, conn_extend_max_stream_offset,
}
use polygon.Conn.Keeps.{Keeps, proceed-keeps, Keeps->>=, Keeps->>, Keeps-if, if-keeps, if_or_keeps}
use polygon.Conn.Receive.{
  lift, emitted, emit_loop, emit0_loop, conn_emit_pending_stream_data,
  conn_emit_pending_stream0_data, deliver, account,
}
use polygon.Conn.Limits.{IsWithin, call-IsWithin, counted-IsWithin}

pub account-IsWithin : (strm : Strm) (end : ℕ) → Keeps IsWithin (account strm end)
unfolding account
account-IsWithin strm end conn h =
    let datalen = end - strm.last_rx_offset in
    let counted : Conn × Result (Unit {0}) =
      (record conn { rx_offset = add64 conn.rx_offset datalen }, ok tt) in
    let count : Conn × Result (Unit {0}) =
      if conn_max_data_violated conn datalen then (conn, err flow_control) else counted in
    if-keeps IsWithin {A = Unit {0}} (ltb strm.max_rx_offset end) (conn, err flow_control)
      (if ltb strm.last_rx_offset end && not (strm.stream_id == 0) then count else (conn, ok tt)) h
      (if-keeps IsWithin {A = Unit {0}} (ltb strm.last_rx_offset end && not (strm.stream_id == 0))
        count (conn, ok tt)
        (if_or_keeps IsWithin {A = Unit {0}} false (conn_max_data_violated conn datalen)
          (conn, err flow_control) counted h (λ e. (counted-IsWithin conn datalen h e, h.1)))
        h)

pub put-IsWithin : (strm : Strm) → Keeps IsWithin (modify (put_strm strm))
unfolding put_strm
put-IsWithin strm conn h = h

emit_loop-IsWithin :
    (fuel : ℕ) (env : Env) (strm : Strm) (rx_offset : ℕ)
    → Keeps IsWithin (emit_loop fuel env strm rx_offset)
unfolding emit_loop
emit_loop-IsWithin zero env strm rx_offset = λ conn h. h
emit_loop-IsWithin (suc fuel) env strm rx_offset =
    Keeps->>= IsWithin (lift (rob_data_at strm.rob rx_offset)) _ (λ conn h. h)
      (λ bytes.
        Keeps-if IsWithin (length bytes == 0) (emitted strm rx_offset) _ (λ conn h. h)
          (let next = add64 rx_offset (length bytes) in
            Keeps->> IsWithin
              (call env (
                recv_stream_data strm.stream_id (strm.flags.shut_rd && next == strm.last_rx_offset)
                  bytes))
              _
              (call-IsWithin env (
                recv_stream_data strm.stream_id (strm.flags.shut_rd && next == strm.last_rx_offset)
                  bytes))
              (Keeps->>= IsWithin
                (lift (rob_pop strm.rob (sub64 next (length bytes)) (length bytes))) _ (λ conn h. h)
                (λ rob.
                  Keeps->> IsWithin (modify (put_strm (record strm { rob = rob })))
                    (emit_loop fuel env (record strm { rob = rob }) next)
                    (put-IsWithin (record strm { rob = rob }))
                    (emit_loop-IsWithin fuel env (record strm { rob = rob }) next)))))

answered-IsWithin :
    (conn : Conn) (r : Option Error)
    → IsWithin conn
    → IsWithin
        (elim r as (λ x. Conn × Result (Unit {0})) [
          | none ↦ (conn, ok tt)
          | some e ↦ (conn, err (stream0_error e))
        ]).0
answered-IsWithin conn none h = h
answered-IsWithin conn (some e) h = h

call0-IsWithin : (env : Env) (bytes : List ℕ) → Keeps IsWithin (call_recv_stream0_data env bytes)
unfolding call_recv_stream0_data
call0-IsWithin env bytes conn h =
    answered-IsWithin (record conn { events = conn.events ++ (recv_stream0_data bytes ∷ []) })
      (env.answer_stream0 bytes) h

extend-IsWithin :
    (strm : Strm) (datalen : ℕ) → Keeps IsWithin (conn_extend_max_stream_offset strm datalen)
unfolding conn_extend_max_stream_offset put_strm
extend-IsWithin strm datalen conn h = if-keeps IsWithin _ _ _ h h

emit0_loop-IsWithin :
    (fuel : ℕ) (env : Env) (strm : Strm) (rx_offset : ℕ)
    → Keeps IsWithin (emit0_loop fuel env strm rx_offset)
unfolding emit0_loop
emit0_loop-IsWithin zero env strm rx_offset = λ conn h. h
emit0_loop-IsWithin (suc fuel) env strm rx_offset =
    Keeps->>= IsWithin (lift (rob_data_at strm.rob rx_offset)) _ (λ conn h. h)
      (λ bytes.
        Keeps-if IsWithin (length bytes == 0) (emitted strm rx_offset) _ (λ conn h. h)
          (let next = add64 rx_offset (length bytes) in
            let wider : Strm = record strm {
              unsent_max_rx_offset = add64 strm.unsent_max_rx_offset (length bytes);
            } in
            Keeps->> IsWithin (call_recv_stream0_data env bytes) _ (call0-IsWithin env bytes) (
              Keeps->>= IsWithin (conn_extend_max_stream_offset wider (length bytes)) _
                (extend-IsWithin wider (length bytes))
                (λ extended.
                  Keeps->>= IsWithin
                    (lift (rob_pop extended.rob (sub64 next (length bytes)) (length bytes))) _
                    (λ conn h. h)
                    (λ rob.
                      Keeps->> IsWithin (modify (put_strm (record extended { rob = rob })))
                        (emit0_loop fuel env (record extended { rob = rob }) next)
                        (put-IsWithin (record extended { rob = rob }))
                        (emit0_loop-IsWithin fuel env (record extended { rob = rob }) next))))))

pub deliver-IsWithin :
    (env : Env) (strm : Strm) (offset : ℕ) (content : List ℕ) (rx_offset : ℕ)
    → Keeps IsWithin (deliver env strm offset content rx_offset)
unfolding deliver conn_emit_pending_stream_data conn_emit_pending_stream0_data
deliver-IsWithin env strm offset content rx_offset =
    let ncut = rx_offset - offset in
    let bytes = drop ncut content in
    let next = add64 rx_offset (length bytes) in
    let strm' : Strm = record strm { rob = rob_remove_prefix strm.rob next } in
    let event =
      recv_stream_data strm.stream_id (strm.flags.shut_rd && next == strm.last_rx_offset) bytes in
    let kept = strm_recv_reordering env.rob_memory strm offset content in
    let hand0 : Act Strm =
      call_recv_stream0_data env bytes >> conn_emit_pending_stream0_data env strm' next in
    let hand : Act Strm = call env event >> conn_emit_pending_stream_data env strm' next in
    let keeps0 : Keeps IsWithin hand0 =
      Keeps->> IsWithin (call_recv_stream0_data env bytes)
        (conn_emit_pending_stream0_data env strm' next) (call0-IsWithin env bytes)
        (emit0_loop-IsWithin (suc (strm_rx_offset strm' - next)) env strm' next) in
    let keeps : Keeps IsWithin hand =
      Keeps->> IsWithin (call env event) (conn_emit_pending_stream_data env strm' next)
        (call-IsWithin env event)
        (emit_loop-IsWithin (suc (strm_rx_offset strm' - next)) env strm' next) in
    Keeps-if IsWithin (leb offset rx_offset) _ _
      (Keeps-if IsWithin (ltb (length content) ncut) _ _ (λ conn h. h)
        (Keeps-if IsWithin (strm.stream_id == 0) _ _
          (Keeps->> IsWithin (modify (put_strm strm')) hand0 (put-IsWithin strm') keeps0)
          (Keeps->> IsWithin (modify (put_strm strm')) hand (put-IsWithin strm') keeps)))
      (λ conn h.
        proceed-keeps IsWithin (put_strm kept.0 conn, kept.1) (λ _. return kept.0)
          (put-IsWithin kept.0 conn h) (λ _ c g. g))
