-- ===== src/Strm.antt =====
-- Polygon/lib/ngtcp2_strm.c: one stream. `queued` says whether the stream stands in the list of streams to send
-- MAX_STREAM_DATA for, that is whether `fc_pprev` is set. A mask of NGTCP2_STRM_FLAG bits is a record of them.
use polygon.Base.{ℕ, ◌*◌, Bool, false, ◌||◌, List, Result, ok, ◌>>=◌}
use polygon.Range.{Range}
use polygon.Gaptr.{gaptr_init}
use polygon.Rob.{Memory, Rob, rob_init, rob_push, rob_first_gap_offset}

pub record Flags : Type 0 where
  pub shut_rd : Bool
  pub shut_wr : Bool
  pub sent_rst : Bool
  pub recv_rst : Bool
  pub stop_sending : Bool

abbrev pub no_flags : Flags
no_flags = record {
  shut_rd = false;
  shut_wr = false;
  sent_rst = false;
  recv_rst = false;
  stop_sending = false;
}

pub record Strm : Type 0 where
  pub tx_offset : ℕ
  pub acked_tx_offset : List Range
  pub max_tx_offset : ℕ
  pub last_rx_offset : ℕ
  pub rob : Rob
  pub max_rx_offset : ℕ
  pub unsent_max_rx_offset : ℕ
  pub nbuffered : ℕ
  pub stream_id : ℕ
  pub flags : Flags
  pub queued : Bool
  pub app_error_code : ℕ

-- `for_acked` says whether there is memory for the gap of `acked_tx_offset`.
unfoldable pub strm_init : Bool → Memory → ℕ → Flags → ℕ → ℕ → Result Strm
strm_init for_acked memory stream_id flags max_rx_offset max_tx_offset = do
  acked ← gaptr_init for_acked
  rob ← rob_init memory (8 * 1024)
  ok (record {
    tx_offset = 0;
    acked_tx_offset = acked;
    max_tx_offset = max_tx_offset;
    last_rx_offset = 0;
    rob = rob;
    max_rx_offset = max_rx_offset;
    unsent_max_rx_offset = max_rx_offset;
    nbuffered = 0;
    stream_id = stream_id;
    flags = flags;
    queued = false;
    app_error_code = 0;
  })

unfoldable pub strm_rx_offset : Strm → ℕ
strm_rx_offset strm = rob_first_gap_offset strm.rob

unfoldable pub strm_recv_reordering : Memory → Strm → ℕ → List ℕ → Strm × Result (Unit {0})
strm_recv_reordering memory strm offset input =
    let (rob, rv) = rob_push memory strm.rob offset input in (record strm { rob = rob }, rv)

-- `flags & NGTCP2_STRM_FLAG_SHUT_RDWR` is added.
unfoldable pub strm_shutdown : Strm → Flags → Strm
strm_shutdown strm flags = record strm {
  flags = record strm.flags {
    shut_rd = strm.flags.shut_rd || flags.shut_rd;
    shut_wr = strm.flags.shut_wr || flags.shut_wr;
  };
}
