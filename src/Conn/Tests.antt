-- ===== src/Conn/Tests.antt =====
-- Runs of ngtcp2_conn.c: a server that a client sends stream 4 to.
use polygon.Base.{
  ◌<◌, ◌≤◌, flow_control, ℕ, ◌+◌, ◌-◌, ◌^◌, true, false, [], ◌∷◌, none, some, ◌≡◌, refl, ok, err,
  arith, segment, if◌then◌else◌, ◌==◌, ◌⊎◌, final_offset,
}
use polygon.Range.{range_init}
use polygon.Range.Gaps.{in_gaps, in_range}
use polygon.Gaptr.Received.{received}
use polygon.Gaptr.{gaptr_first_gap_offset}
use polygon.Rob.{Memory, rob_first_gap_offset}
use polygon.Rob.Fill.{HasMemory}
use polygon.Rob.Stream.{IsRob}
use polygon.Strm.{Strm, no_flags}
use polygon.Conn.{
  Conn, Env, conn_local_stream, bidi_stream, conn_max_data_violated, conn_find_stream,
}
use polygon.Conn.Close.{is_finished, conn_close_stream_if_shut_rdwr}
use polygon.Conn.Receive.{
  account, conn_recv_stream, deliver, check_stream_id, conn_emit_pending_stream_data,
}
use polygon.Conn.Emit.{delivered, Emits, conn_emit_pending_stream_data-Emits}
use polygon.Conn.Deliver.{Delivers, deliver-Delivers}
use polygon.Conn.Reassembly.{frame_of, Receiving, Received}
use polygon.Conn.InOrder.{recv_all, recv_all-Received}
use polygon.Conn.Control.{conn_recv_rst_stream, rst_known}
use polygon.Conn.Limits.{IsWithin, conn_recv_rst_stream-IsWithin}
use polygon.Conn.Twice.{conn_recv_rst_stream-again}
use polygon.Conn.Flow.{newly, with_rx, account-exact}
use polygon.Conn.Window.{conn_recv_stream-IsWithin}
use polygon.Conn.Complete.{IsKept, IsComplete}
use polygon.Conn.Closing.{Closes, conn_close_stream_if_shut_rdwr-Closes}

abbrev plenty : Memory
plenty = record { for_gap = λ x. true; for_data = λ x. true; content = λ x. 0 }

plenty-HasMemory : HasMemory plenty
plenty-HasMemory = record { gaps = λ x. refl; blocks = λ x. refl }

abbrev willing : Env
willing = record {
  rob_memory = plenty;
  for_acked = true;
  for_strm = true;
  for_map = true;
  for_idtr = true;
  for_frame = true;
  accepts = λ e. true;
  answer_stream0 = λ bytes. none;
}

-- The stream whose byte at offset `x` is `x + 100`.
abbrev byte_at : ℕ → ℕ
byte_at x = x + 100

abbrev strm4 : Strm
strm4 = record {
  tx_offset = 0;
  acked_tx_offset = range_init 0 (2 ^ 64 - 1) ∷ [];
  max_tx_offset = 1000;
  last_rx_offset = 0;
  rob = record { gaps = range_init 0 (2 ^ 64 - 1) ∷ []; blocks = []; chunk = 4 };
  max_rx_offset = 20;
  unsent_max_rx_offset = 20;
  nbuffered = 0;
  stream_id = 4;
  flags = no_flags;
  queued = false;
  app_error_code = 0;
}

abbrev conn4 : Conn
conn4 = record {
  server = true;
  strms = λ id. if id == 4 then some strm4 else none;
  fc_strms = [];
  remote_bidi_idtr = record { server = false; gaps = range_init 2 (2 ^ 64 - 1) ∷ [] };
  remote_uni_idtr = record { server = false; gaps = range_init 0 (2 ^ 64 - 1) ∷ [] };
  unsent_max_remote_stream_id_bidi = 8;
  max_remote_stream_id_bidi = 8;
  remote_stream_id_bidi_window_start = 0;
  max_local_stream_id_bidi = 9;
  next_local_stream_id_bidi = 1;
  unsent_max_remote_stream_id_uni = 2;
  max_remote_stream_id_uni = 2;
  remote_stream_id_uni_window_start = 0;
  max_local_stream_id_uni = 3;
  next_local_stream_id_uni = 3;
  unsent_max_rx_offset = 100;
  max_rx_offset = 100;
  rx_offset = 10;
  tx_offset = 0;
  max_tx_offset = 1000;
  frq = [];
  immediate_ack = false;
  local_max_stream_data = 20;
  remote_max_stream_data = 1000;
  local_max_data = 100;
  events = [];
}

new-IsRob : IsRob byte_at 0 strm4.rob
unfolding in_gaps in_range range_init
new-IsRob = record {
  pos = omega arith;
  small = omega arith;
  gaps_order = (omega arith, omega arith, omega arith, tt);
  blocks_order = tt;
  held = λ x a b c. absurd (ground arith);
  endless = λ x a b. ground arith;
}

ready : Receiving byte_at 4 20 [] conn4
unfolding in_gaps in_range range_init received rob_first_gap_offset delivered conn_local_stream
    bidi_stream
ready = record {
  strm = strm4;
  found = refl;
  same_id = refl;
  not_shut = refl;
  wanted = refl;
  state = new-IsRob;
  bytes = refl;
  exact = λ x lt. ground (arith, lt);
  most = refl;
  last = omega arith;
  window = omega arith;
  small = omega arith;
  remote = refl;
  allowed = omega arith;
}

-- Bytes 2 to 6 come first, then bytes 0 to 2.
recv_all-Received_example : Received byte_at 4 20 ((0, 3) ∷ (2, 5) ∷ []) (
    recv_all willing byte_at 4 20
      (λ e. refl)
      plenty-HasMemory
      (omega arith)
      (omega arith)
      ((2, 5) ∷ (0, 3) ∷ [])
      conn4)
recv_all-Received_example =
    recv_all-Received willing byte_at 4 20 (λ e. refl) plenty-HasMemory (omega arith) (omega arith)
      ((2, 5) ∷ (0, 3) ∷ []) [] conn4 ready
      ((omega arith, omega arith), ((omega arith, omega arith), tt))

deliver-Delivers_example :
    Delivers byte_at 0 3 0 strm4 conn4 (deliver willing strm4 0 (segment byte_at 0 3) 0 conn4)
unfolding rob_first_gap_offset range_init
deliver-Delivers_example =
    deliver-Delivers willing byte_at 0 3 0 strm4 conn4 (λ e. refl) plenty-HasMemory new-IsRob refl
      (omega arith) (omega arith) refl

conn_emit_pending_stream_data-Emits_example :
    Emits byte_at 0 strm4 conn4 (conn_emit_pending_stream_data willing strm4 0 conn4)
unfolding rob_first_gap_offset range_init
conn_emit_pending_stream_data-Emits_example =
    conn_emit_pending_stream_data-Emits willing byte_at 0 strm4 conn4 (λ e. refl) new-IsRob
      (omega arith) (omega arith) refl

conn_recv_rst_stream-IsWithin_example : IsWithin (conn_recv_rst_stream willing 4 7 15 conn4).0
conn_recv_rst_stream-IsWithin_example =
    conn_recv_rst_stream-IsWithin willing 4 7 15 conn4 (omega arith, omega arith)

first_passes : (check_stream_id 4 conn4).1 ≡ ok tt
unfolding check_stream_id conn_local_stream bidi_stream
first_passes = refl

first_accepted : (conn_recv_rst_stream willing 4 7 15 conn4).1 ≡ ok tt
unfolding conn_recv_rst_stream check_stream_id conn_local_stream bidi_stream conn_find_stream
    conn_max_data_violated conn_close_stream_if_shut_rdwr is_finished rst_known
first_accepted = refl

conn_recv_rst_stream-again_example :
    (conn_recv_rst_stream willing 4 7 15 (conn_recv_rst_stream willing 4 7 15 conn4).0).1
    ≡ err final_offset
conn_recv_rst_stream-again_example =
    conn_recv_rst_stream-again willing 4 7 15 conn4 strm4 (λ e. absurd (omega arith)) refl refl refl
      refl (omega arith) first_passes first_accepted

-- Nothing came in or went out on the stream, and both directions are shut.
abbrev shut4 : Strm
shut4 = record strm4 { flags = record no_flags { shut_rd = true; shut_wr = true } }

shut4_finished : is_finished shut4 ≡ true
unfolding is_finished rob_first_gap_offset gaptr_first_gap_offset range_init
shut4_finished = refl

shut4-IsKept : IsKept shut4
unfolding in_gaps in_range range_init
shut4-IsKept = record {
  in_order = (omega arith, omega arith, omega arith, tt);
  in_end = ground arith;
  out_order = (omega arith, omega arith, omega arith, tt);
  out_end = ground arith;
}

conn_close_stream_if_shut_rdwr-Closes_example :
    (IsComplete shut4 × Closes shut4 5 conn4 (conn_close_stream_if_shut_rdwr willing shut4 5 conn4))
    ⊎ ((¬ IsComplete shut4) × conn_close_stream_if_shut_rdwr willing shut4 5 conn4 ≡ (conn4, ok tt))
conn_close_stream_if_shut_rdwr-Closes_example =
    conn_close_stream_if_shut_rdwr-Closes willing shut4 strm4 5 conn4 (λ e. refl) refl shut4-IsKept

conn_recv_stream-IsWithin_example :
    IsWithin (conn_recv_stream willing (frame_of byte_at 4 2 5) conn4).0
conn_recv_stream-IsWithin_example =
    conn_recv_stream-IsWithin willing (frame_of byte_at 4 2 5) conn4 (omega arith, omega arith)

account-exact_example :
    ((12 ≤ strm4.max_rx_offset)
      × (conn4.rx_offset + newly strm4 12 ≤ conn4.max_rx_offset)
      × account strm4 12 conn4 ≡ (with_rx conn4 (conn4.rx_offset + newly strm4 12), ok tt))
    ⊎ (((strm4.max_rx_offset < 12) ⊎ (conn4.max_rx_offset < conn4.rx_offset + newly strm4 12))
        × account strm4 12 conn4 ≡ (conn4, err flow_control))
account-exact_example = account-exact strm4 12 conn4 (omega arith, omega arith)
