-- ===== src/Conn/Reassembly.antt =====
-- A stream of the peer as the application sees it: whatever frames without FIN come in, in whatever order and however they
-- overlap, it gets the bytes of the stream in order, each of them once, up to the first that is missing.
use polygon.Base.{
  ℕ, ◌+◌, ◌-◌, ◌≤◌, ◌<◌, ◌^◌, false, not, ◌&&◌, ◌||◌, List, ◌∷◌, some, ltb, leb, ◌==◌, ◌≡◌, refl,
  ◌∙◌, ap, if◌then◌else◌, max, Result, ok, add64, sub64, segment, length-segment, arith, inl, inr,
  ltb-cases, le→leb, lt→leb_false,
}
use polygon.Range.{range_init}
use polygon.Range.Gaps.{in_range, in_gaps}
use polygon.Gaptr.Received.{received}
use polygon.Rob.{Rob, rob_first_gap_offset}
use polygon.Rob.Fill.{HasMemory}
use polygon.Rob.Stream.{IsRob}
use polygon.Rob.First.{IsRob-First}
use polygon.Strm.{Strm, strm_rx_offset}
use polygon.Pkt.Frame.{Stream}
use polygon.Conn.{
  Conn, Env, conn_local_stream, bidi_stream, conn_max_data_violated, conn_find_stream, put_strm,
}
use polygon.Conn.Close.{is_finished, conn_close_stream_if_shut_rdwr}
use polygon.Conn.Receive.{
  conn_recv_stream, recv_into, recv_more, account, deliver, check_stream_id, find_or_make,
  found_or_made,
}
use polygon.Conn.Emit.{Willing, with_rob, delivered}

abbrev pub max_remote : Conn → ℕ → ℕ
max_remote conn id =
    if bidi_stream id then conn.max_remote_stream_id_bidi else conn.max_remote_stream_id_uni

-- A stream that the peer may send on up to `limit`, the windows being wide enough, and of which the pieces have
-- come in.
pub record Receiving (s : ℕ → ℕ) (id limit : ℕ) (pieces : List (ℕ × ℕ)) (conn : Conn) : Type 0 where
  pub strm : Strm
  pub found : conn.strms id ≡ some strm
  pub same_id : strm.stream_id ≡ id
  pub not_shut : strm.flags.shut_rd ≡ false
  pub wanted : strm.flags.stop_sending ≡ false
  pub state : IsRob s (rob_first_gap_offset strm.rob) strm.rob
  pub bytes : delivered id conn.events ≡ segment s 0 (rob_first_gap_offset strm.rob)
  pub exact : (x : ℕ) → x < 2 ^ 64 - 1 → in_gaps x strm.rob.gaps ≡ not (received x pieces)
  pub most : strm.max_rx_offset ≡ limit
  pub last : strm.last_rx_offset ≤ limit
  pub window : conn.rx_offset + (limit - strm.last_rx_offset) ≤ conn.max_rx_offset
  pub small : conn.max_rx_offset < 2 ^ 63
  pub remote : conn_local_stream conn id ≡ false
  pub allowed : id ≤ max_remote conn id

-- A frame with a piece of the stream, which does not end it.
abbrev pub frame_of : (ℕ → ℕ) → ℕ → ℕ → ℕ → Stream
frame_of s id offset len = record {
  flags = 0;
  fin = false;
  stream_id = id;
  offset = offset;
  content = segment s offset len;
}

module _ (env : Env) (s : ℕ → ℕ) (id limit : ℕ) (w : Willing env) (m : HasMemory env.rob_memory)
    (real : 0 < id) (fits : limit < 2 ^ 62) where
  find_found :
      (strm : Strm) (conn : Conn)
      → conn.strms id ≡ some strm
      → find_or_make env id conn ≡ (conn, ok (some strm))
  unfolding find_or_make conn_find_stream
  find_found strm conn e = ap (λ found. found_or_made env id found conn) e

  -- The checks let the frame pass.
  pub recv_open :
      (offset len : ℕ) (pieces : List (ℕ × ℕ)) (conn : Conn) (v : Receiving s id limit pieces conn)
      → 0 < len
      → offset + len ≤ limit
      → conn_recv_stream env (frame_of s id offset len) conn
        ≡ recv_into env (frame_of s id offset len) v.strm conn
  unfolding conn_recv_stream check_stream_id
  recv_open offset len pieces conn v h1 h2 =
      let allowed = v.allowed in
      let other : (id == 0) ≡ false = ground arith in
      let some_data : (len == 0) ≡ false = ground arith in
      let in_time : ltb (max_remote conn id) id ≡ false = ground arith in
      let short : ltb (sub64 (2 ^ 62 - 1) len) offset ≡ false = ground arith in
      rw
        (
          other,
          length-segment s offset len,
          some_data,
          v.remote,
          in_time,
          v.remote,
          short,
          find_found v.strm conn v.found,
        )
        refl

  -- Flow control lets the frame pass, and counts what is new.
  pub account_open :
      (offset len : ℕ) (pieces : List (ℕ × ℕ)) (conn : Conn) (v : Receiving s id limit pieces conn)
      → offset + len ≤ limit
      → account v.strm (offset + len) conn ≡ (
        record conn { rx_offset = conn.rx_offset + (offset + len - v.strm.last_rx_offset) },
        ok tt,
      )
  unfolding account conn_max_data_violated
  account_open offset len pieces conn v h =
      let room = v.most in
      let other : (v.strm.stream_id == 0) ≡ false = ground (arith, v.same_id) in
      let inside : ltb v.strm.max_rx_offset (offset + len) ≡ false = ground (arith, v.most) in
      let window = v.window in
      let small = v.small in
      elim (ltb-cases v.strm.last_rx_offset (offset + len)) [
        | inl (more, e) ↦
            let passes : ltb (sub64 conn.max_rx_offset conn.rx_offset)
                  (offset + len - v.strm.last_rx_offset)
                ≡ false =
              ground arith in
            let count : add64 conn.rx_offset (offset + len - v.strm.last_rx_offset)
                ≡ conn.rx_offset + (offset + len - v.strm.last_rx_offset) =
              omega arith in
            rw (inside, e, other, passes, count) refl
        | inr (old, e) ↦
            let nothing : conn.rx_offset + (offset + len - v.strm.last_rx_offset) ≡ conn.rx_offset =
              omega arith in
            rw (inside, e, nothing) refl
      ]

-- The stream once the frame counts as received.
abbrev pub seen : Strm → ℕ → Strm
seen strm fr_end_offset = record strm { last_rx_offset = max strm.last_rx_offset fr_end_offset }

module _ (env : Env) (fr : Stream) (strm : Strm) (fr_end_offset : ℕ) (conn : Conn)
    (not_shut : strm.flags.shut_rd ≡ false) where
  pub recv_more_old :
      fr_end_offset ≤ rob_first_gap_offset strm.rob
      → recv_more env fr strm fr_end_offset conn ≡ (put_strm (seen strm fr_end_offset) conn, ok tt)
  unfolding recv_more strm_rx_offset
  recv_more_old h = rw (not_shut, le→leb fr_end_offset (rob_first_gap_offset strm.rob) h) refl

  stays_open :
      (left : Strm) (c : Conn)
      → left.flags.shut_rd ≡ false
      → conn_close_stream_if_shut_rdwr env left 0 c ≡ (c, ok tt)
  unfolding conn_close_stream_if_shut_rdwr is_finished
  stays_open left c e = rw e refl

  pub recv_more_new :
      (rob : Rob) (c : Conn) (res : Result Strm)
      → rob_first_gap_offset strm.rob < fr_end_offset
      → strm.flags.stop_sending ≡ false
      → deliver env
          (seen strm fr_end_offset)
          fr.offset
          fr.content
          (rob_first_gap_offset strm.rob)
          (put_strm (seen strm fr_end_offset) conn)
        ≡ (c, res)
      → res ≡ ok (with_rob (seen strm fr_end_offset) rob)
      → recv_more env fr strm fr_end_offset conn ≡ (c, ok tt)
  unfolding recv_more strm_rx_offset
  recv_more_new rob c res h wanted e e' =
      let going : (strm.flags.shut_rd && ltb strm.last_rx_offset fr_end_offset) ≡ false =
        rw not_shut refl in
      let new : (leb fr_end_offset (rob_first_gap_offset strm.rob) || strm.flags.stop_sending)
          ≡ false =
        rw (lt→leb_false fr_end_offset (rob_first_gap_offset strm.rob) h, wanted) refl in
      rw (going, new, e, e', stays_open (with_rob (seen strm fr_end_offset) rob) c not_shut) refl

-- A frame has come in.
pub record Received (s : ℕ → ℕ) (id limit : ℕ) (pieces : List (ℕ × ℕ))
    (r : Conn × Result (Unit {0})) : Type 0 where
  pub success : r.1 ≡ ok tt
  pub receiving : Receiving s id limit pieces r.0

module _ (env : Env) (s : ℕ → ℕ) (id limit : ℕ) (w : Willing env) (m : HasMemory env.rob_memory)
    (real : 0 < id) (fits : limit < 2 ^ 62) where
  -- The connection with the new data counted.
  abbrev pub counted : Conn → Strm → ℕ → Conn
  counted conn strm fr_end_offset = record conn {
    rx_offset = conn.rx_offset + (fr_end_offset - strm.last_rx_offset);
  }

  pub old-Received :
      (offset len : ℕ) (pieces : List (ℕ × ℕ)) (conn : Conn) (v : Receiving s id limit pieces conn)
      → offset + len ≤ limit
      → offset + len ≤ rob_first_gap_offset v.strm.rob
      → Received s id limit
          ((offset, len) ∷ pieces)
          (put_strm (seen v.strm (offset + len)) (counted conn v.strm (offset + len)), ok tt)
  unfolding put_strm received conn_local_stream
  old-Received offset len pieces conn v h1 h2 =
      let window = v.window in
      let last = v.last in
      let f = IsRob-First s (rob_first_gap_offset v.strm.rob) v.strm.rob v.state in
      record {
        success = refl;
        receiving = record {
          strm = seen v.strm (offset + len);
          found = ground (arith, v.same_id);
          same_id = v.same_id;
          not_shut = v.not_shut;
          wanted = v.wanted;
          state = v.state;
          bytes = v.bytes;
          exact = λ x lt.
              v.exact x lt ∙ unfold in_range range_init in ground (arith, v.exact x lt, f.least x);
          most = v.most;
          last = omega arith;
          window = omega arith;
          small = v.small;
          remote = v.remote;
          allowed = v.allowed;
        };
      }
