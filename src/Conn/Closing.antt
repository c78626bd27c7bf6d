-- ===== src/Conn/Closing.antt =====
-- What `ngtcp2_conn_close_stream_if_shut_rdwr` leaves.
use polygon.Base.{
  ℕ, sym, Bool, true, false, ◌||◌, List, [], ◌∷◌, ◌++◌, none, some, Result, ok, ◌==◌, ◌≡◌, ◌≢◌,
  refl, ◌∙◌, ap, ◌⊎◌, inl, inr, if◌then◌else◌, arith, Bool-cases,
}
use polygon.Strm.{Strm}
use polygon.Conn.{Conn, Env, stream_close, call, conn_local_stream, bidi_stream, conn_immediate_ack}
use polygon.Conn.Close.{
  conn_close_stream, conn_close_stream_if_shut_rdwr, is_finished, remove_strm,
  extend_remote_stream_id, leave_fc, without,
}
use polygon.Conn.Emit.{Willing}
use polygon.Conn.Complete.{IsKept, IsComplete, finished-IsComplete, IsComplete-finished}

abbrev pub has : ℕ → List ℕ → Bool
has id [] = false
has id (x ∷ xs) = let rest = has id xs in x == id || rest

has-without : (id : ℕ) (xs : List ℕ) → has id (without id xs) ≡ false
has-without id [] = refl
has-without id (x ∷ xs) = elim (Bool-cases (x == id)) [
  | inl e ↦ rw e (has-without id xs)
  | inr e ↦ rw (e, e) (has-without id xs)
]

-- The connection once the stream is closed.
pub record Closes (strm : Strm) (code : ℕ) (conn : Conn) (r : Conn × Result (Unit {0}))
    : Type 0 where
  pub success : r.1 ≡ ok tt
  pub gone : r.0.strms strm.stream_id ≡ none
  pub others : (id : ℕ) → id ≢ strm.stream_id → r.0.strms id ≡ conn.strms id
  pub told :
      r.0.events
      ≡ conn.events
        ++ (stream_close strm.stream_id (if strm.app_error_code == 0 then 0 else code) ∷ [])
  pub off_queue : strm.queued ≡ true → has strm.stream_id r.0.fc_strms ≡ false
  pub at_once : r.0.immediate_ack ≡ true
  pub counted : r.0.rx_offset ≡ conn.rx_offset

extend-same :
    (id : ℕ) (conn : Conn)
    → extend_remote_stream_id id conn ≡ record conn {
      unsent_max_remote_stream_id_bidi =
          (extend_remote_stream_id id conn).unsent_max_remote_stream_id_bidi;
      unsent_max_remote_stream_id_uni =
          (extend_remote_stream_id id conn).unsent_max_remote_stream_id_uni;
    }
unfolding extend_remote_stream_id
extend-same id conn = elim (Bool-cases (conn_local_stream conn id)) [
  | inl e ↦ rw e refl
  | inr e ↦ elim (Bool-cases (bidi_stream id)) [
    | inl e' ↦ rw (e, e') refl
    | inr e' ↦ rw (e, e') refl
  ]
]

leave-same :
    (strm : Strm) (conn : Conn)
    → leave_fc strm conn ≡ record conn { fc_strms = (leave_fc strm conn).fc_strms }
unfolding leave_fc
leave-same strm conn = elim (Bool-cases strm.queued) [ inl e ↦ rw e refl | inr e ↦ rw e refl ]

leave-off :
    (strm : Strm) (conn : Conn)
    → strm.queued ≡ true
    → has strm.stream_id (leave_fc strm conn).fc_strms ≡ false
unfolding leave_fc
leave-off strm conn e = rw e (has-without strm.stream_id conn.fc_strms)

reported_code : (a code : ℕ) → (if a == 0 then a else code) ≡ (if a == 0 then 0 else code)
reported_code a code = ground arith

module _ (env : Env) (strm old : Strm) (code : ℕ) (conn : Conn) (w : Willing env)
    (there : conn.strms strm.stream_id ≡ some old) where
  abbrev without_strm : Conn
  without_strm = record conn {
    strms = λ id. if id == strm.stream_id then none else conn.strms id;
    events =
        conn.events
        ++ (stream_close strm.stream_id
              (if strm.app_error_code == 0 then strm.app_error_code else code)
            ∷ []);
  }

  close_stream_steps : conn_close_stream env strm code conn ≡ (
    conn_immediate_ack (leave_fc strm (extend_remote_stream_id strm.stream_id without_strm)),
    ok tt,
  )
  unfolding conn_close_stream remove_strm call
  close_stream_steps =
      rw
        (
          there,
          w (
              stream_close strm.stream_id
                (if strm.app_error_code == 0 then strm.app_error_code else code)),
        )
        refl

  close-Closes : Closes strm code conn (conn_close_stream env strm code conn)
  unfolding conn_immediate_ack
  close-Closes =
      let c1 = extend_remote_stream_id strm.stream_id without_strm in
      let e1 = extend-same strm.stream_id without_strm in
      let e2 = leave-same strm c1 in
      let same : (strm.stream_id == strm.stream_id) ≡ true = ground arith in
      rw close_stream_steps (record {
        success = refl;
        gone =
            ap (λ c. c.strms strm.stream_id) e2
            ∙ ap (λ c. c.strms strm.stream_id) e1
            ∙ rw same refl;
        others = λ id n.
            let other : (id == strm.stream_id) ≡ false = ground (arith, n) in
            ap (λ c. c.strms id) e2 ∙ ap (λ c. c.strms id) e1 ∙ rw other refl;
        told =
            ap (λ c. c.events) e2
            ∙ ap (λ c. c.events) e1
            ∙ rw (reported_code strm.app_error_code code) refl;
        off_queue = leave-off strm c1;
        at_once = refl;
        counted = ap (λ c. c.rx_offset) e2 ∙ ap (λ c. c.rx_offset) e1;
      })

  -- A stream of the connection whose gaps are in order, when the application accepts its calls. If both directions are
  -- shut, and all the data of each has come in or been acknowledged unless that direction was reset, the stream is
  -- closed: it is out of the map and of the queue, other streams stay, the application is told once, with error code 0
  -- if the stream has none of its own, and an acknowledgement is due. Otherwise nothing happens.
  pub conn_close_stream_if_shut_rdwr-Closes :
      IsKept strm
      → (IsComplete strm
          × Closes strm code conn (conn_close_stream_if_shut_rdwr env strm code conn))
        ⊎ ((¬ IsComplete strm) × conn_close_stream_if_shut_rdwr env strm code conn ≡ (conn, ok tt))
  unfolding conn_close_stream_if_shut_rdwr
  conn_close_stream_if_shut_rdwr-Closes k = elim (Bool-cases (is_finished strm)) [
    | inl e ↦ inl (finished-IsComplete strm k e, rw e close-Closes)
    | inr e ↦
        let not_complete : ¬ IsComplete strm =
          λ c. absurd (ground (arith, sym e ∙ IsComplete-finished strm k c)) in
        inr (not_complete, rw e refl)
  ]
