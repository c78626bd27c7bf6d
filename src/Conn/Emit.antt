-- ===== src/Conn/Emit.antt =====
-- `conn_emit_pending_stream_data` hands the stream out in order, up to the first gap.
use polygon.Base.{
  ℕ, zero, suc, ◌+◌, ◌-◌, ◌≤◌, ◌<◌, ◌^◌, Bool, false, true, ◌&&◌, List, [], ◌∷◌, ◌++◌, append_assoc,
  append-nil, length, Option, some, ◌==◌, ◌≡◌, refl, ◌∙◌, sym, if◌then◌else◌, Bool-cases, Result,
  ok, add64, sub64, segment, length-segment, segment-append, arith, inl, inr,
}
use polygon.Base.Gives.{Gives-value}
use polygon.Rob.{Rob, rob_data_at, rob_pop, rob_first_gap_offset}
use polygon.Rob.Stream.{IsRob}
use polygon.Rob.Front.{rob_data_at-Front}
use polygon.Strm.{Strm, strm_rx_offset}
use polygon.Conn.{
  Conn, Env, Event, call, put_strm, recv_stream_data, recv_stream0_data, stream_close,
  extend_max_stream_id,
}
use polygon.Conn.Receive.{emit_loop, conn_emit_pending_stream_data}

-- The bytes of one stream that some calls hand to the application.
unfoldable pub delivered : ℕ → List Event → List ℕ
delivered id [] = []
delivered id (e ∷ events) =
    let rest = delivered id events in
    elim e [ recv_stream_data id' fin bytes ↦ if id' == id then bytes ++ rest else rest | _ ↦ rest ]

-- The application accepts everything.
abbrev pub Willing : Env → Type 0
Willing env = (e : Event) → env.accepts e ≡ true

-- The stream with another reorder buffer.
abbrev pub with_rob : Strm → Rob → Strm
with_rob strm rob = record strm { rob = rob }

-- The connection with other streams and calls.
abbrev pub with_calls : Conn → (ℕ → Option Strm) → List Event → Conn
with_calls conn strms events = record conn { strms = strms; events = events }

-- What is handed out from `base` on, and the stream and connection that are left.
pub record Emits (s : ℕ → ℕ) (base : ℕ) (strm : Strm) (conn : Conn) (r : Conn × Result Strm)
    : Type 0 where
  pub left : Rob
  pub events : List Event
  pub success : r.1 ≡ ok (with_rob strm left)
  pub stored : r.0.strms strm.stream_id ≡ some (with_rob strm left)
  pub state : IsRob s (rob_first_gap_offset left) left
  pub gaps : left.gaps ≡ strm.rob.gaps
  pub log : r.0.events ≡ conn.events ++ events
  pub same : r.0 ≡ with_calls conn r.0.strms r.0.events
  pub forth : base ≤ rob_first_gap_offset left
  pub bytes : delivered strm.stream_id events ≡ segment s base (rob_first_gap_offset left - base)

-- One round of the loop that hands `bytes` out.
emit_step :
    (fuel : ℕ) (env : Env) (strm : Strm) (conn : Conn) (base len : ℕ) (bytes : List ℕ) (rob : Rob)
    → Willing env
    → rob_data_at strm.rob base ≡ ok bytes
    → length bytes ≡ len
    → 0 < len
    → base + len < 2 ^ 64
    → rob_pop strm.rob base len ≡ ok rob
    → emit_loop (suc fuel) env strm base conn
      ≡ emit_loop fuel env (with_rob strm rob) (base + len) (
          put_strm (with_rob strm rob) (record conn {
            events =
                conn.events
                ++ (recv_stream_data strm.stream_id
                      (strm.flags.shut_rd && (base + len == strm.last_rx_offset))
                      bytes
                    ∷ []);
          }))
unfolding emit_loop call
emit_step fuel env strm conn base len bytes rob w given size pos small popped =
    let next : add64 base len ≡ base + len = omega arith in
    let back : sub64 (base + len) len ≡ base = omega arith in
    let more : (len == 0) ≡ false = ground arith in
    rw
      (
        given,
        size,
        next,
        more,
        w (
            recv_stream_data strm.stream_id
              (strm.flags.shut_rd && (base + len == strm.last_rx_offset)) bytes),
        back,
        popped,
      )
      refl

emit_end :
    (fuel : ℕ) (env : Env) (strm : Strm) (conn : Conn) (base : ℕ)
    → rob_data_at strm.rob base ≡ ok []
    → rob_first_gap_offset strm.rob ≡ base
    → emit_loop (suc fuel) env strm base conn ≡ (conn, ok strm)
unfolding emit_loop strm_rx_offset
emit_end fuel env strm conn base given first =
    let same : (base == rob_first_gap_offset strm.rob) ≡ true = ground arith in
    rw (given, same) refl

pub delivered-append :
    (id : ℕ) (xs ys : List Event) → delivered id (xs ++ ys) ≡ delivered id xs ++ delivered id ys
unfolding delivered
delivered-append id [] ys = refl
delivered-append id (recv_stream_data id' fin bytes ∷ xs) ys = elim (Bool-cases (id' == id)) [
  | inl e ↦
      rw (e, delivered-append id xs ys, append_assoc bytes (delivered id xs) (delivered id ys)) refl
  | inr e ↦ rw (e, delivered-append id xs ys) refl
]
delivered-append id (recv_stream0_data bytes ∷ xs) ys = delivered-append id xs ys
delivered-append id (stream_close a b ∷ xs) ys = delivered-append id xs ys
delivered-append id (extend_max_stream_id a ∷ xs) ys = delivered-append id xs ys

-- A round and what the later rounds hand out.
pub Emits-more :
    (s : ℕ → ℕ) (base len : ℕ) (strm : Strm) (rob : Rob) (fin : Bool) (conn conn' : Conn)
    (r : Conn × Result Strm)
    → conn'.events ≡ conn.events ++ (recv_stream_data strm.stream_id fin (segment s base len) ∷ [])
    → ((strms : ℕ → Option Strm) (events : List Event)
        → with_calls conn' strms events ≡ with_calls conn strms events)
    → rob.gaps ≡ strm.rob.gaps
    → Emits s (base + len) (with_rob strm rob) conn' r
    → Emits s base strm conn r
unfolding delivered
Emits-more s base len strm rob fin conn conn' r log others gaps t =
    let event = recv_stream_data strm.stream_id fin (segment s base len) in
    let same : (strm.stream_id == strm.stream_id) ≡ true = ground arith in
    let forth = t.forth in
    let rest : rob_first_gap_offset t.left - base
        ≡ len + (rob_first_gap_offset t.left - (base + len)) =
      omega arith in
    record {
      left = t.left;
      events = event ∷ t.events;
      success = t.success;
      stored = t.stored;
      state = t.state;
      gaps = t.gaps ∙ gaps;
      log = t.log ∙ rw log (append_assoc conn.events (event ∷ []) t.events);
      same = t.same ∙ others r.0.strms r.0.events;
      forth = omega arith;
      bytes =
          rw (same, t.bytes, rest)
            (segment-append s base len (rob_first_gap_offset t.left - (base + len)));
    }

first_gap_same : (a b : Rob) → a.gaps ≡ b.gaps → rob_first_gap_offset a ≡ rob_first_gap_offset b
unfolding rob_first_gap_offset
first_gap_same a b e = rw e refl

emit_loop-Emits :
    (fuel : ℕ) (env : Env) (s : ℕ → ℕ) (base : ℕ) (strm : Strm) (conn : Conn)
    → Willing env
    → IsRob s base strm.rob
    → rob_first_gap_offset strm.rob < 2 ^ 63
    → rob_first_gap_offset strm.rob < fuel + base
    → base ≤ rob_first_gap_offset strm.rob
    → conn.strms strm.stream_id ≡ some strm
    → Emits s base strm conn (emit_loop fuel env strm base conn)
emit_loop-Emits zero env s base strm conn w v small f le stored = absurd (omega arith)
emit_loop-Emits (suc fuel) env s base strm conn w v small f le stored =
    elim (rob_data_at-Front s base strm.rob v) [
      | inr (given, first) ↦
          let none_left : rob_first_gap_offset strm.rob - base ≡ 0 = omega arith in
          rw (emit_end fuel env strm conn base given first) (record {
            left = strm.rob;
            events = [];
            success = refl;
            stored = stored;
            state = rw first v;
            gaps = refl;
            log = sym (append-nil conn.events);
            same = refl;
            forth = le;
            bytes = unfold delivered in rw none_left refl;
          })
      | inl p ↦
          let (rob, popped, q) = Gives-value p.popped in
          let fin = strm.flags.shut_rd && (base + p.len == strm.last_rx_offset) in
          let event = recv_stream_data strm.stream_id fin (segment s base p.len) in
          let strm' : Strm = with_rob strm rob in
          let conn' : Conn =
            put_strm strm' (record conn { events = conn.events ++ (event ∷ []) }) in
          let before = p.before in
          let some_len = p.some_len in
          let same = first_gap_same rob strm.rob q.gaps in
          let there : conn'.strms strm'.stream_id ≡ some strm' = unfold put_strm in ground arith in
          rw
            (emit_step fuel env strm conn base p.len (segment s base p.len) rob w p.given
              (length-segment s base p.len) some_len (omega arith) popped)
            (Emits-more s base p.len strm rob fin conn conn'
              (emit_loop fuel env strm' (base + p.len) conn') (unfold put_strm in refl)
              (λ strms events. unfold put_strm in refl) q.gaps
              (emit_loop-Emits fuel env s (base + p.len) strm' conn' w q.state (omega arith)
                (omega arith) (omega arith) there))
    ]

-- With an application that accepts its calls, the loop for a stream of the map comes to an end, and all that it hands
-- out is the stream from `base` to the first gap.
pub conn_emit_pending_stream_data-Emits :
    (env : Env) (s : ℕ → ℕ) (base : ℕ) (strm : Strm) (conn : Conn)
    → Willing env
    → IsRob s base strm.rob
    → rob_first_gap_offset strm.rob < 2 ^ 63
    → base ≤ rob_first_gap_offset strm.rob
    → conn.strms strm.stream_id ≡ some strm
    → Emits s base strm conn (conn_emit_pending_stream_data env strm base conn)
unfolding conn_emit_pending_stream_data strm_rx_offset
conn_emit_pending_stream_data-Emits env s base strm conn w v small le stored =
    emit_loop-Emits (suc (rob_first_gap_offset strm.rob - base)) env s base strm conn w v small
      (omega arith) le stored
