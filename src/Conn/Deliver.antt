-- ===== src/Conn/Deliver.antt =====
-- The last part of `conn_recv_stream`: what comes in order is handed out, and what does not is kept.
use polygon.Base.{
  ℕ, ◌+◌, ◌-◌, ◌≤◌, ◌<◌, ◌^◌, false, true, not, ◌&&◌, List, [], ◌∷◌, ◌++◌, append-nil, drop, some,
  ltb, leb, ◌==◌, ◌≡◌, refl, ◌∙◌, sym, Result, ok, add64, segment, length-segment, drop-segment,
  arith, inl, inr, leb-cases,
}
use polygon.Range.{range_init}
use polygon.Range.Gaps.{in_range, in_gaps}
use polygon.Rob.{Rob, rob_remove_prefix, rob_push, rob_first_gap_offset}
use polygon.Rob.Fill.{HasMemory}
use polygon.Rob.Stream.{IsRob, Pushes, rob_push-Pushes}
use polygon.Rob.Deliver.{rob_remove_prefix-IsRob}
use polygon.Rob.First.{IsRob-First}
use polygon.Strm.{Strm, strm_recv_reordering}
use polygon.Conn.{Conn, Env, Event, call, put_strm, recv_stream_data}
use polygon.Conn.Receive.{deliver, conn_emit_pending_stream_data}
use polygon.Conn.Emit.{
  Willing, with_rob, with_calls, delivered, Emits, Emits-more, conn_emit_pending_stream_data-Emits,
}

-- The stream after a piece of it has come in. The first gap was at `rx_offset`.
pub record Delivers (s : ℕ → ℕ) (offset len rx_offset : ℕ) (strm : Strm) (conn : Conn)
    (r : Conn × Result Strm) : Type 0 where
  pub left : Rob
  pub events : List Event
  pub success : r.1 ≡ ok (with_rob strm left)
  pub stored : r.0.strms strm.stream_id ≡ some (with_rob strm left)
  pub state : IsRob s (rob_first_gap_offset left) left
  pub log : r.0.events ≡ conn.events ++ events
  pub same : r.0 ≡ with_calls conn r.0.strms r.0.events
  pub forth : rx_offset ≤ rob_first_gap_offset left
  pub bytes :
      delivered strm.stream_id events ≡ segment s rx_offset (rob_first_gap_offset left - rx_offset)
  pub exact :
      (x : ℕ)
      → in_gaps x left.gaps
        ≡ (in_gaps x strm.rob.gaps && not (in_range x (range_init offset (offset + len))))

module _ (env : Env) (s : ℕ → ℕ) (offset len rx_offset : ℕ) (strm : Strm) (conn : Conn)
    (w : Willing env) (m : HasMemory env.rob_memory) (v : IsRob s rx_offset strm.rob)
    (first : rob_first_gap_offset strm.rob ≡ rx_offset) (new : rx_offset < offset + len)
    (small : offset + len ≤ 2 ^ 62) (other : (strm.stream_id == 0) ≡ false) where
  abbrev end : ℕ
  end = offset + len

  -- The stream once everything below the end of the piece counts as handed out.
  abbrev forward : Strm
  forward = with_rob strm (rob_remove_prefix strm.rob end)

  abbrev handed : Event
  handed =
      recv_stream_data strm.stream_id (strm.flags.shut_rd && (end == strm.last_rx_offset))
        (segment s rx_offset (end - rx_offset))

  abbrev after_handing : Conn
  after_handing = let c = put_strm forward conn in record c { events = c.events ++ (handed ∷ []) }

  deliver_at_once :
      offset ≤ rx_offset
      → deliver env strm offset (segment s offset len) rx_offset conn
        ≡ conn_emit_pending_stream_data env forward end after_handing
  unfolding deliver call
  deliver_at_once h =
      let from : offset + (rx_offset - offset) ≡ rx_offset = omega arith in
      let cut : drop (rx_offset - offset) (segment s offset len)
          ≡ segment s rx_offset (end - rx_offset) =
        drop-segment (rx_offset - offset) s offset len (omega arith)
        ∙ (let rest : len - (rx_offset - offset) ≡ end - rx_offset = omega arith in
            rw (from, rest) refl) in
      let next : add64 rx_offset (end - rx_offset) ≡ end = omega arith in
      let in_order : leb offset rx_offset ≡ true = ground arith in
      let inside : ltb len (rx_offset - offset) ≡ false = ground arith in
      rw
        (
          cut,
          length-segment s offset len,
          inside,
          length-segment s rx_offset (end - rx_offset),
          next,
          in_order,
          other,
          w handed,
        )
        refl

  at_once-Delivers :
      offset ≤ rx_offset
      → Delivers s offset len rx_offset strm conn
          (deliver env strm offset (segment s offset len) rx_offset conn)
  at_once-Delivers h =
      let (state, exact) = rob_remove_prefix-IsRob s rx_offset end strm.rob v (omega arith) small in
      let f = IsRob-First s end (rob_remove_prefix strm.rob end) state in
      let b = IsRob-First s rx_offset strm.rob v in
      let there : after_handing.strms strm.stream_id ≡ some forward =
        unfold put_strm in ground arith in
      let small' = f.small in
      let t : Emits s end forward after_handing
          (conn_emit_pending_stream_data env forward end after_handing) =
        conn_emit_pending_stream_data-Emits env s end forward after_handing w state (omega arith)
          f.from there in
      let r = conn_emit_pending_stream_data env forward end after_handing in
      let whole : rx_offset + (end - rx_offset) ≡ end = omega arith in
      let u : Emits s rx_offset forward conn r =
        Emits-more s rx_offset (end - rx_offset) forward forward.rob
          (strm.flags.shut_rd && (end == strm.last_rx_offset)) conn after_handing r
          (unfold put_strm in refl) (λ strms events. unfold put_strm in refl) refl (rw whole t) in
      rw (deliver_at_once h) (record {
        left = u.left;
        events = u.events;
        success = u.success;
        stored = u.stored;
        state = u.state;
        log = u.log;
        same = u.same;
        forth = u.forth;
        bytes = u.bytes;
        exact = λ x.
            let below = b.least x in
            rw u.gaps (exact x ∙ unfold in_range range_init in ground (arith, below));
      })

  later_Delivers :
      rx_offset < offset
      → Delivers s offset len rx_offset strm conn
          (deliver env strm offset (segment s offset len) rx_offset conn)
  unfolding deliver strm_recv_reordering put_strm
  later_Delivers h =
      let r = rob_push env.rob_memory strm.rob offset (segment s offset len) in
      let p : Pushes s rx_offset offset len strm.rob r =
        rob_push-Pushes env.rob_memory s rx_offset offset len strm.rob m v small in
      let out_of_order : leb offset rx_offset ≡ false = ground arith in
      let f = IsRob-First s rx_offset r.0 p.state in
      let b = IsRob-First s rx_offset strm.rob v in
      let gap : in_gaps rx_offset strm.rob.gaps ≡ true = rw first at b.gap in
      let away : in_range rx_offset (range_init offset (offset + len)) ≡ false =
        unfold in_range range_init in ground arith in
      let still : in_gaps rx_offset r.0.gaps ≡ true = p.exact rx_offset ∙ rw (gap, away) refl in
      let same : rob_first_gap_offset r.0 ≡ rx_offset =
        omega (arith, f.from, f.least rx_offset still) in
      let nothing : rob_first_gap_offset r.0 - rx_offset ≡ 0 = omega arith in
      let stored : (strm.stream_id == strm.stream_id) ≡ true = ground arith in
      rw (out_of_order, p.success)
        (record {
          left = r.0;
          events = [];
          success = refl;
          stored = rw stored refl;
          state = rw same p.state;
          log = sym (append-nil conn.events);
          same = refl;
          forth = omega arith;
          bytes = unfold delivered in rw nothing refl;
          exact = p.exact;
        })

  -- A stream other than stream 0 whose first gap is where the application stands, with memory at hand and an
  -- application that accepts its calls. Whatever piece of the stream comes in that ends behind that place, everything
  -- that is complete is handed out, in order and once, and nothing else; the gaps that are left are those before
  -- without the piece.
  pub deliver-Delivers :
      Delivers s offset len rx_offset strm conn
        (deliver env strm offset (segment s offset len) rx_offset conn)
  deliver-Delivers = elim (leb-cases offset rx_offset) [
    | inl (le, _) ↦ at_once-Delivers le
    | inr (gt, _) ↦ later_Delivers gt
  ]
