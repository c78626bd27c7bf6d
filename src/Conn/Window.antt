-- ===== src/Conn/Window.antt =====
-- The bytes counted for the connection stay within its limit, whatever `conn_recv_stream` gets.
use polygon.Base.{
  ℕ, ◌+◌, Bool, false, true, not, ◌&&◌, ◌||◌, [], length, Option, none, some, ltb, leb, ◌==◌,
  if◌then◌else◌, max, Result, ok, err, fault, add64, sub64, proto, frame_format, final_offset,
  stream_in_use, nomem,
}
use polygon.Idtr.{idtr_open}
use polygon.Strm.{Strm, strm_init, strm_rx_offset, strm_shutdown, no_flags}
use polygon.Pkt.Frame.{Stream}
use polygon.Conn.{
  Conn, Env, Act, proceed, ◌>>=◌, ◌>>◌, return, get, modify, fail_if, call, put_strm,
  conn_local_stream, bidi_stream, recv_stream_data,
}
use polygon.Conn.Keeps.{
  Keeps, proceed-keeps, Keeps->>=, Keeps->>, Keeps-if, if-keeps, Keeps-fail_if,
}
use polygon.Conn.Close.{leave_fc, conn_close_stream_if_shut_rdwr, max_varint}
use polygon.Conn.Receive.{
  only_shut_wr, deliver, check_stream_id, idtr_of, put_idtr, conn_init_stream, make_strm,
  found_or_made, find_or_make, account, ended, recv_fin, recv_more, recv_into, conn_recv_stream,
}
use polygon.Conn.Limits.{
  IsWithin, call-IsWithin, leave-IsWithin, check-IsWithin, put_idtr-IsWithin, close_if-IsWithin,
}
use polygon.Conn.Handing.{account-IsWithin, put-IsWithin, deliver-IsWithin}

inserted-IsWithin :
    (conn : Conn) (r : Option Strm) (strm : Strm)
    → IsWithin conn
    → IsWithin
        (elim r as (λ x. Conn × Result Strm) [
          | none ↦ (put_strm strm conn, ok strm)
          | some _ ↦ (conn, fault)
        ]).0
unfolding put_strm
inserted-IsWithin conn none strm h = h
inserted-IsWithin conn (some old) strm h = h

init_stream-IsWithin : (env : Env) (id : ℕ) → Keeps IsWithin (conn_init_stream env id)
unfolding conn_init_stream put_strm
init_stream-IsWithin env id conn h =
    proceed-keeps IsWithin
      (
        conn,
        strm_init env.for_acked env.rob_memory id no_flags conn.local_max_stream_data
            conn.remote_max_stream_data,
      )
      _ h
      (λ strm c g.
        if-keeps IsWithin env.for_map _ (c, err nomem) (inserted-IsWithin c (c.strms id) strm g) g)

make_strm-IsWithin : (env : Env) (id : ℕ) → Keeps IsWithin (make_strm env id)
unfolding make_strm
make_strm-IsWithin env id =
    Keeps->> IsWithin (fail_if (not env.for_strm) nomem) _
      (Keeps-fail_if IsWithin (not env.for_strm) nomem)
      (Keeps->>= IsWithin (conn_init_stream env id) _ (init_stream-IsWithin env id)
        (λ strm. put-IsWithin (if bidi_stream id then strm else strm_shutdown strm only_shut_wr)))

opened-IsWithin :
    (conn : Conn) (made : Conn × Result (Option Strm)) (rv : Result (Unit {0}))
    → IsWithin conn
    → IsWithin made.0
    → IsWithin
        (elim rv as (λ x. Conn × Result (Option Strm)) [
          | ok _ ↦ made
          | err e ↦ elim e [ stream_in_use ↦ (conn, ok none) | _ ↦ (conn, fault) ]
          | fault ↦ (conn, fault)
        ]).0
opened-IsWithin conn made (ok x) h g = g
opened-IsWithin conn made (err e) h g =
    elim e
      as (λ k.
        IsWithin
          (elim k as (λ x. Conn × Result (Option Strm)) [
            | stream_in_use ↦ (conn, ok none)
            | _ ↦ (conn, fault)
          ]).0) [ stream_in_use ↦ h | _ ↦ h ]
opened-IsWithin conn made fault h g = h

found-IsWithin :
    (env : Env) (id : ℕ) (found : Option Strm) → Keeps IsWithin (found_or_made env id found)
found-IsWithin env id (some strm) conn h = h
found-IsWithin env id none conn h =
    let r = idtr_open env.for_idtr (idtr_of conn id) id in
    let c : Conn = put_idtr id r.0 conn in
    let g : IsWithin c = put_idtr-IsWithin id r.0 conn h in
    if-keeps IsWithin (conn_local_stream conn id) (conn, ok none) _ h
      (opened-IsWithin c (proceed (make_strm env id c) (λ strm. return (some strm))) r.1 g (
        proceed-keeps IsWithin (make_strm env id c) (λ strm. return (some strm))
          (make_strm-IsWithin env id c g) (λ strm c' g'. g')))

taken-IsWithin :
    (env : Env) (fr : Stream) (strm : Strm)
    → Keeps IsWithin (
        deliver env strm fr.offset fr.content (strm_rx_offset strm) >>= λ left.
        conn_close_stream_if_shut_rdwr env left 0)
taken-IsWithin env fr strm =
    Keeps->>= IsWithin (deliver env strm fr.offset fr.content (strm_rx_offset strm))
      (λ left. conn_close_stream_if_shut_rdwr env left 0)
      (deliver-IsWithin env strm fr.offset fr.content (strm_rx_offset strm))
      (λ left. close_if-IsWithin env left 0)

recv_fin-IsWithin :
    (env : Env) (fr : Stream) (strm : Strm) (fr_end_offset : ℕ)
    → Keeps IsWithin (recv_fin env fr strm fr_end_offset)
unfolding recv_fin
recv_fin-IsWithin env fr strm fr_end_offset =
    let strm' = ended strm fr_end_offset in
    let apart : Strm = record strm' { queued = false } in
    let complete : Act (Unit {0}) =
      call env (recv_stream_data strm.stream_id true [])
      >> conn_close_stream_if_shut_rdwr env apart 0 in
    let take_data : Act (Unit {0}) =
      deliver env apart fr.offset fr.content (strm_rx_offset apart) >>= λ left.
      conn_close_stream_if_shut_rdwr env left 0 in
    let on : Act (Unit {0}) =
      if fr_end_offset == strm_rx_offset apart then complete else take_data in
    let open_still : Act (Unit {0}) = modify (leave_fc strm') >> (modify (put_strm apart) >> on) in
    let go : Act (Unit {0}) =
      if strm.flags.stop_sending
      then conn_close_stream_if_shut_rdwr env strm' strm'.app_error_code
      else open_still in
    let keeps_on : Keeps IsWithin on =
      Keeps-if IsWithin (fr_end_offset == strm_rx_offset apart) complete take_data
        (Keeps->> IsWithin (call env (recv_stream_data strm.stream_id true []))
          (conn_close_stream_if_shut_rdwr env apart 0)
          (call-IsWithin env (recv_stream_data strm.stream_id true []))
          (close_if-IsWithin env apart 0))
        (taken-IsWithin env fr apart) in
    let keeps_open : Keeps IsWithin open_still =
      Keeps->> IsWithin (modify (leave_fc strm')) (modify (put_strm apart) >> on)
        (leave-IsWithin strm')
        (Keeps->> IsWithin (modify (put_strm apart)) on (put-IsWithin apart) keeps_on) in
    Keeps-if IsWithin strm.flags.shut_rd _ _
      (Keeps-fail_if IsWithin (not (strm.last_rx_offset == fr_end_offset)) final_offset)
      (Keeps-if IsWithin (ltb fr_end_offset strm.last_rx_offset) _ _ (λ conn h. h)
        (Keeps->> IsWithin (modify (put_strm strm')) go (put-IsWithin strm') (
          Keeps-if IsWithin strm.flags.stop_sending
            (conn_close_stream_if_shut_rdwr env strm' strm'.app_error_code) open_still
            (close_if-IsWithin env strm' strm'.app_error_code) keeps_open)))

recv_more-IsWithin :
    (env : Env) (fr : Stream) (strm : Strm) (fr_end_offset : ℕ)
    → Keeps IsWithin (recv_more env fr strm fr_end_offset)
unfolding recv_more
recv_more-IsWithin env fr strm fr_end_offset =
    let strm' : Strm = record strm { last_rx_offset = max strm.last_rx_offset fr_end_offset } in
    let take_data : Act (Unit {0}) =
      deliver env strm' fr.offset fr.content (strm_rx_offset strm') >>= λ left.
      conn_close_stream_if_shut_rdwr env left 0 in
    let on : Act (Unit {0}) =
      if leb fr_end_offset (strm_rx_offset strm') || strm.flags.stop_sending
      then return tt
      else take_data in
    Keeps-if IsWithin (strm.flags.shut_rd && ltb strm.last_rx_offset fr_end_offset) _ _
      (λ conn h. h)
      (Keeps->> IsWithin (modify (put_strm strm')) on (put-IsWithin strm') (
        Keeps-if IsWithin (leb fr_end_offset (strm_rx_offset strm') || strm.flags.stop_sending)
          (return tt) take_data (λ conn h. h) (taken-IsWithin env fr strm')))

recv_into-IsWithin :
    (env : Env) (fr : Stream) (strm : Strm) → Keeps IsWithin (recv_into env fr strm)
unfolding recv_into
recv_into-IsWithin env fr strm =
    let end = fr.offset + length fr.content in
    Keeps->> IsWithin (account strm end) _ (account-IsWithin strm end) (
      Keeps-if IsWithin fr.fin (recv_fin env fr strm end) (recv_more env fr strm end)
        (recv_fin-IsWithin env fr strm end) (recv_more-IsWithin env fr strm end))

abbrev onto : Env → Stream → Option Strm → Act (Unit {0})
onto env fr found = elim found [ none ↦ return tt | some strm ↦ recv_into env fr strm ]

onto-IsWithin : (env : Env) (fr : Stream) (found : Option Strm) → Keeps IsWithin (onto env fr found)
onto-IsWithin env fr none = λ conn h. h
onto-IsWithin env fr (some strm) = recv_into-IsWithin env fr strm

find-IsWithin : (env : Env) (id : ℕ) → Keeps IsWithin (find_or_make env id)
unfolding find_or_make
find-IsWithin env id conn h = found-IsWithin env id _ conn h

-- Whatever STREAM frame comes in, and whether it is accepted or refused, the bytes counted for the connection stay
-- within the limit that the peer was given, if they were before.
pub conn_recv_stream-IsWithin :
    (env : Env) (fr : Stream) (conn : Conn)
    → IsWithin conn
    → IsWithin (conn_recv_stream env fr conn).0
unfolding conn_recv_stream
conn_recv_stream-IsWithin env fr =
    let last : Act (Unit {0}) = find_or_make env fr.stream_id >>= onto env fr in
    let keeps_last : Keeps IsWithin last =
      Keeps->>= IsWithin (find_or_make env fr.stream_id) (onto env fr)
        (find-IsWithin env fr.stream_id) (onto-IsWithin env fr) in
    let short = ltb (sub64 max_varint (length fr.content)) fr.offset in
    let keeps_short : Keeps IsWithin (fail_if short proto >> last) =
      Keeps->> IsWithin (fail_if short proto) last (Keeps-fail_if IsWithin short proto)
        keeps_last in
    let local_uni : Conn → Bool = λ conn.
      conn_local_stream conn fr.stream_id
      && not (bidi_stream fr.stream_id)
      && not (add64 fr.offset (length fr.content) == 0) in
    let from : Act (Unit {0}) =
      get >>= λ conn. fail_if (local_uni conn) final_offset >> (fail_if short proto >> last) in
    let keeps_from : Keeps IsWithin from = λ conn.
      Keeps->> IsWithin (fail_if (local_uni conn) final_offset) (fail_if short proto >> last)
        (Keeps-fail_if IsWithin (local_uni conn) final_offset) keeps_short conn in
    let empty = not fr.fin && length fr.content == 0 in
    Keeps->> IsWithin (fail_if (fr.stream_id == 0 && fr.fin) proto)
      (fail_if empty frame_format >> (check_stream_id fr.stream_id >> from))
      (Keeps-fail_if IsWithin (fr.stream_id == 0 && fr.fin) proto)
      (Keeps->> IsWithin (fail_if empty frame_format) (check_stream_id fr.stream_id >> from)
        (Keeps-fail_if IsWithin empty frame_format)
        (Keeps->> IsWithin (check_stream_id fr.stream_id) from (check-IsWithin fr.stream_id)
          keeps_from))
