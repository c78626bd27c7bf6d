-- ===== src/Conn.antt =====
-- Polygon/lib/ngtcp2_conn.c: the streams of a connection, and what the frames that come in do to them. The state
-- has the fields that these functions use. A stream is found by its identifier: `strms` is the map. `events` are
-- the calls of the application's functions so far, the first one first.
pub mod Close
pub mod Receive
pub mod Emit
pub mod Deliver
pub mod Reassembly
pub mod InOrder
pub mod Control
pub mod Local
pub mod Keeps
pub mod Limits
pub mod Twice
pub mod Complete
pub mod Closing
pub mod Flow
pub mod Handing
pub mod Window
mod Tests
use polygon.Base.{
  ℕ, ◌+◌, ◌-◌, ◌*◌, ◌/◌, ◌%◌, ◌^◌, Bool, false, true, not, ◌&&◌, ◌||◌, List, [], ◌∷◌, ◌++◌, Option,
  none, some, ltb, leb, ◌==◌, if◌then◌else◌, Error, Result, ok, err, fault, bit_and, sub64, add64,
  callback_failure, tls_handshake, tls_fatal_alert_generated, tls_fatal_alert_received,
}
use polygon.Range.{Range}
use polygon.Idtr.{Idtr}
use polygon.Rob.{Memory}
use polygon.Strm.{Strm}
use polygon.Pkt.Frame.{Frame}

-- A call of a function of the application, which does not call back into the connection meanwhile. Where the application has not set the function the call stands for none,
-- and is accepted.
pub data Event : Type 0 where
  recv_stream_data : ℕ → Bool → List ℕ → Event
  recv_stream0_data : List ℕ → Event
  stream_close : ℕ → ℕ → Event
  extend_max_stream_id : ℕ → Event

-- What the allocator and the application answer during one call.
pub record Env : Type 0 where
  pub rob_memory : Memory
  pub for_acked : Bool
  pub for_strm : Bool
  pub for_map : Bool
  pub for_idtr : Bool
  pub for_frame : Bool
  pub accepts : Event → Bool
  -- what the function for the data of stream 0 gives back, 0 being none
  pub answer_stream0 : List ℕ → Option Error

pub record Conn : Type 0 where
  pub server : Bool
  pub strms : ℕ → Option Strm
  pub fc_strms : List ℕ
  pub remote_bidi_idtr : Idtr
  pub remote_uni_idtr : Idtr
  pub unsent_max_remote_stream_id_bidi : ℕ
  pub max_remote_stream_id_bidi : ℕ
  pub remote_stream_id_bidi_window_start : ℕ
  pub max_local_stream_id_bidi : ℕ
  pub next_local_stream_id_bidi : ℕ
  pub unsent_max_remote_stream_id_uni : ℕ
  pub max_remote_stream_id_uni : ℕ
  pub remote_stream_id_uni_window_start : ℕ
  pub max_local_stream_id_uni : ℕ
  pub next_local_stream_id_uni : ℕ
  pub unsent_max_rx_offset : ℕ
  pub max_rx_offset : ℕ
  pub rx_offset : ℕ
  pub tx_offset : ℕ
  pub max_tx_offset : ℕ
  pub frq : List Frame
  pub immediate_ack : Bool
  pub local_max_stream_data : ℕ
  pub remote_max_stream_data : ℕ
  pub local_max_data : ℕ
  pub events : List Event

-- A function of the connection: it changes the state, also where it fails.
abbrev pub Act : Type 0 → Type 0
Act A = Conn → Conn × Result A

abbrev pub proceed : {A B : Type 0} → Conn × Result A → (A → Act B) → Conn × Result B
proceed (conn, ok a) f = f a conn
proceed (conn, err e) f = (conn, err e)
proceed (conn, fault) f = (conn, fault)

infixl 5 ◌>>=◌ ◌>>◌
abbrev pub ◌>>=◌ : {A B : Type 0} → Act A → (A → Act B) → Act B
(m >>= f) conn = proceed (m conn) f

abbrev pub ◌>>◌ : {B : Type 0} → Act (Unit {0}) → Act B → Act B
(m >> k) conn = proceed (m conn) (λ _. k)

abbrev pub return : {A : Type 0} → A → Act A
return a conn = (conn, ok a)

abbrev pub get : Act Conn
get conn = (conn, ok conn)

abbrev pub modify : (Conn → Conn) → Act (Unit {0})
modify f conn = (f conn, ok tt)

abbrev pub fail : {A : Type 0} → Error → Act A
fail e conn = (conn, err e)

-- `if (b) return e;`
abbrev pub fail_if : Bool → Error → Act (Unit {0})
fail_if b e conn = if b then (conn, err e) else (conn, ok tt)

-- A call of the application, which the code turns into NGTCP2_ERR_CALLBACK_FAILURE if it is refused.
unfoldable pub call : Env → Event → Act (Unit {0})
call env event conn =
    let conn' = record conn { events = conn.events ++ (event ∷ []) } in
    if env.accepts event then (conn', ok tt) else (conn', err callback_failure)

-- The errors that `conn_call_recv_stream0_data` hands on.
unfoldable pub stream0_error : Error → Error
stream0_error e = elim e [
  | tls_handshake ↦ tls_handshake
  | tls_fatal_alert_generated ↦ tls_fatal_alert_generated
  | tls_fatal_alert_received ↦ tls_fatal_alert_received
  | _ ↦ callback_failure
]

unfoldable pub call_recv_stream0_data : Env → List ℕ → Act (Unit {0})
call_recv_stream0_data env bytes conn =
    let conn' = record conn { events = conn.events ++ (recv_stream0_data bytes ∷ []) } in
    elim (env.answer_stream0 bytes) [
      | none ↦ (conn', ok tt)
      | some e ↦ (conn', err (stream0_error e))
    ]

-- A change of the stream that the map holds under `strm.stream_id`.
unfoldable pub put_strm : Strm → Conn → Conn
put_strm strm conn = record conn {
  strms = λ id. if id == strm.stream_id then some strm else conn.strms id;
}

-- `conn_should_send_max_stream_data`
unfoldable pub should_send_max_stream_data : Conn → Strm → Bool
should_send_max_stream_data conn strm =
    ltb (conn.local_max_stream_data / 2) (sub64 strm.unsent_max_rx_offset strm.max_rx_offset)

-- `conn_extend_max_stream_offset`; it gives the stream that it leaves.
unfoldable pub conn_extend_max_stream_offset : Strm → ℕ → Act Strm
conn_extend_max_stream_offset strm datalen conn =
    let fits = leb strm.unsent_max_rx_offset (sub64 (2 ^ 62 - 1) datalen) in
    let wider : Strm =
      if fits
      then record strm { unsent_max_rx_offset = add64 strm.unsent_max_rx_offset datalen }
      else strm in
    let joins =
      not (strm.flags.shut_rd || strm.flags.stop_sending)
      && not strm.queued
      && should_send_max_stream_data conn wider in
    let strm' : Strm = if joins then record wider { queued = true } else wider in
    let conn' = put_strm strm' conn in
    if joins
    then (record conn' { fc_strms = strm.stream_id ∷ conn.fc_strms }, ok strm')
    else (conn', ok strm')

unfoldable pub conn_local_stream : Conn → ℕ → Bool
conn_local_stream conn stream_id =
    if conn.server then not (stream_id % 2 == 0) else stream_id % 2 == 0

unfoldable pub bidi_stream : ℕ → Bool
bidi_stream stream_id = bit_and stream_id 2 == 0

unfoldable pub conn_max_data_violated : Conn → ℕ → Bool
conn_max_data_violated conn datalen = ltb (sub64 conn.max_rx_offset conn.rx_offset) datalen

unfoldable pub conn_find_stream : Conn → ℕ → Option Strm
conn_find_stream conn stream_id = conn.strms stream_id

unfoldable pub conn_immediate_ack : Conn → Conn
conn_immediate_ack conn = record conn { immediate_ack = true }
