-- ===== src/Conn/InOrder.antt =====
-- The application gets a stream in order, frame after frame, as long as no frame ends it.
use polygon.Base.{
  ℕ, ◌+◌, ◌-◌, ◌≤◌, ◌<◌, ◌^◌, false, List, [], ◌∷◌, All, ◌==◌, ◌≡◌, refl, ◌∙◌, sym, ap, Result, ok,
  segment, length-segment, segment-append, arith, inl, inr, leb-cases,
}
use polygon.Range.{range_init}
use polygon.Range.Gaps.{in_range}
use polygon.Gaptr.Received.{received}
use polygon.Rob.{rob_first_gap_offset}
use polygon.Rob.Fill.{HasMemory}
use polygon.Strm.{Strm}
use polygon.Conn.{Conn, Env, Act, return, ◌>>◌, conn_local_stream, put_strm}
use polygon.Conn.Receive.{conn_recv_stream, recv_into, deliver}
use polygon.Conn.Emit.{Willing, with_rob, delivered, delivered-append}
use polygon.Conn.Deliver.{Delivers, deliver-Delivers}
use polygon.Conn.Reassembly.{
  max_remote, Receiving, Received, frame_of, seen, counted, recv_open, account_open, recv_more_old,
  recv_more_new, old-Received,
}

module _ (env : Env) (s : ℕ → ℕ) (id limit : ℕ) (w : Willing env) (m : HasMemory env.rob_memory)
    (real : 0 < id) (fits : limit < 2 ^ 62) where
  -- The connection when the data is delivered.
  abbrev noted : Conn → Strm → ℕ → Conn
  noted conn strm end =
      put_strm (seen strm end) (counted env s id limit w m real fits conn strm end)

  new-Received :
      (offset len : ℕ) (pieces : List (ℕ × ℕ)) (conn : Conn) (v : Receiving s id limit pieces conn)
      (r : Conn × Result Strm)
      → offset + len ≤ limit
      → Delivers s offset len
          (rob_first_gap_offset v.strm.rob)
          (seen v.strm (offset + len))
          (noted conn v.strm (offset + len))
          r
      → Received s id limit ((offset, len) ∷ pieces) (r.0, ok tt)
  unfolding received conn_local_stream put_strm
  new-Received offset len pieces conn v r h d =
      let window = v.window in
      let last = v.last in
      let forth = d.forth in
      let first = rob_first_gap_offset v.strm.rob in
      let later = rob_first_gap_offset d.left in
      let rx : r.0.rx_offset ≡ conn.rx_offset + (offset + len - v.strm.last_rx_offset) =
        ap (λ c. c.rx_offset) d.same in
      let most : r.0.max_rx_offset ≡ conn.max_rx_offset = ap (λ c. c.max_rx_offset) d.same in
      let whole : first + (later - first) ≡ later = omega arith in
      let from : 0 + first ≡ first = omega arith in
      record {
        success = refl;
        receiving = record {
          strm = with_rob (seen v.strm (offset + len)) d.left;
          found = ap r.0.strms (sym v.same_id) ∙ d.stored;
          same_id = v.same_id;
          not_shut = v.not_shut;
          wanted = v.wanted;
          state = d.state;
          bytes =
              rw (d.log, delivered-append id conn.events d.events, v.bytes)
                (let tail : delivered id d.events ≡ segment s first (later - first) =
                    rw v.same_id at d.bytes in
                  rw (tail) (rw (from, whole) at (segment-append s 0 first (later - first))));
          exact = λ x lt. d.exact x ∙ unfold in_range range_init in ground (arith, v.exact x lt);
          most = v.most;
          last = omega arith;
          window = omega arith;
          small = omega (arith, v.small);
          remote = ap (λ c. conn_local_stream c id) d.same ∙ v.remote;
          allowed = omega (arith, v.allowed, ap (λ c. max_remote c id) d.same);
        };
      }

  -- One frame.
  frame-Received :
      (offset len : ℕ) (pieces : List (ℕ × ℕ)) (conn : Conn)
      → Receiving s id limit pieces conn
      → 0 < len
      → offset + len ≤ limit
      → Received s id limit
          ((offset, len) ∷ pieces)
          (conn_recv_stream env (frame_of s id offset len) conn)
  unfolding recv_into
  frame-Received offset len pieces conn v h1 h2 =
      let end = offset + len in
      let first = rob_first_gap_offset v.strm.rob in
      let fr = frame_of s id offset len in
      let conn0 = counted env s id limit w m real fits conn v.strm end in
      let r =
        deliver env (seen v.strm end) offset (segment s offset len) first (noted conn v.strm end) in
      rw
        (
          recv_open env s id limit w m real fits offset len pieces conn v h1 h2,
          length-segment s offset len,
          account_open env s id limit w m real fits offset len pieces conn v h2,
        )
        (elim (leb-cases end first) [
          | inl (old, _) ↦
              rw (recv_more_old env fr v.strm end conn0 v.not_shut old)
                (old-Received env s id limit w m real fits offset len pieces conn v h2 old)
          | inr (new, _) ↦
              let other : ((seen v.strm end).stream_id == 0) ≡ false = ground (arith, v.same_id) in
              let d : Delivers s offset len first (seen v.strm end) (noted conn v.strm end) r =
                deliver-Delivers env s offset len first (seen v.strm end) (noted conn v.strm end) w
                  m v.state refl new (omega arith) other in
              rw
                (recv_more_new env fr v.strm end conn0 v.not_shut d.left r.0 r.1 new v.wanted refl
                  d.success)
                (new-Received offset len pieces conn v r h2 d)
        ])

  -- Frames one after the other.
  unfoldable pub recv_all : List (ℕ × ℕ) → Act (Unit {0})
  recv_all [] = return tt
  recv_all ((offset, len) ∷ pieces) =
      conn_recv_stream env (frame_of s id offset len) >> recv_all pieces

  abbrev pub IsFrame : ℕ × ℕ → Type 0
  IsFrame (offset, len) = (0 < len) × (offset + len ≤ limit)

  abbrev pub reversed_onto : List (ℕ × ℕ) → List (ℕ × ℕ) → List (ℕ × ℕ)
  reversed_onto pieces [] = pieces
  reversed_onto pieces (p ∷ later) = reversed_onto (p ∷ pieces) later

  -- A stream other than stream 0 is there, is not shut for reading, and no STOP_SENDING was sent for it; there is
  -- memory, and the application accepts its calls. STREAM frames for it that carry data and no FIN, and lie below the
  -- limit, which the windows allow, are all accepted, in whatever order they come in and however they overlap. The
  -- application has then got the bytes of the stream from its beginning up to the first that no frame held, in order
  -- and each of them once.
  pub recv_all-Received :
      (later pieces : List (ℕ × ℕ)) (conn : Conn)
      → Receiving s id limit pieces conn
      → All IsFrame later
      → Received s id limit (reversed_onto pieces later) (recv_all later conn)
  unfolding recv_all
  recv_all-Received [] pieces conn v h = record { success = refl; receiving = v }
  recv_all-Received ((offset, len) ∷ later) pieces conn v ((h1, h2), h) =
      let t = frame-Received offset len pieces conn v h1 h2 in
      rw t.success (recv_all-Received later ((offset, len) ∷ pieces) _ t.receiving h)
