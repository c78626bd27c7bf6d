-- ===== src/Conn/Flow.antt =====
-- Flow control in `conn_recv_stream`.
use polygon.Base.{
  ℕ, ◌+◌, ◌-◌, ◌≤◌, ◌<◌, true, false, not, ◌&&◌, if◌then◌else◌, ok, err, ltb, ◌==◌, ◌≡◌, ◌⊎◌, refl,
  ◌∙◌, arith, inl, inr, ltb-cases, add64, sub64, flow_control,
}
use polygon.Strm.{Strm}
use polygon.Conn.{Conn, conn_max_data_violated}
use polygon.Conn.Limits.{IsWithin}
use polygon.Conn.Receive.{account}

-- What a frame up to `end` adds to the bytes counted for the connection; stream 0 does not count.
abbrev pub newly : Strm → ℕ → ℕ
newly strm end = if strm.stream_id == 0 then 0 else end - strm.last_rx_offset

abbrev pub with_rx : Conn → ℕ → Conn
with_rx conn n = record conn { rx_offset = n }

module _ (strm : Strm) (end : ℕ) (conn : Conn) (v : IsWithin conn) where
  account_over : strm.max_rx_offset < end → account strm end conn ≡ (conn, err flow_control)
  unfolding account
  account_over h = let over : ltb strm.max_rx_offset end ≡ true = ground arith in rw over refl

  account_same :
      end ≤ strm.max_rx_offset → newly strm end ≡ 0 → account strm end conn ≡ (conn, ok tt)
  unfolding account
  account_same h n =
      let over : ltb strm.max_rx_offset end ≡ false = ground arith in
      let new : (ltb strm.last_rx_offset end && not (strm.stream_id == 0)) ≡ false =
        ground (arith, n) in
      rw (over, new) refl

  account_more :
      end ≤ strm.max_rx_offset
      → 0 < newly strm end
      → account strm end conn ≡ (
          if ltb (conn.max_rx_offset - conn.rx_offset) (newly strm end)
          then (conn, err flow_control)
          else (with_rx conn (add64 conn.rx_offset (newly strm end)), ok tt))
  unfolding account conn_max_data_violated
  account_more h n =
      let over : ltb strm.max_rx_offset end ≡ false = ground arith in
      let real : (strm.stream_id == 0) ≡ false = ground (arith, n) in
      let new : ltb strm.last_rx_offset end ≡ true = ground (arith, n) in
      let left : sub64 conn.max_rx_offset conn.rx_offset ≡ conn.max_rx_offset - conn.rx_offset =
        omega (arith, v.0, v.1) in
      rw (over, real, new, left) refl

  -- Where the bytes counted are within the limit: data up to `end` is counted exactly if it lies within the window
  -- of the stream and what it adds fits into that of the connection; otherwise it is refused with FLOW_CONTROL and
  -- nothing is counted.
  pub account-exact :
      ((end ≤ strm.max_rx_offset)
        × (conn.rx_offset + newly strm end ≤ conn.max_rx_offset)
        × account strm end conn ≡ (with_rx conn (conn.rx_offset + newly strm end), ok tt))
      ⊎ (((strm.max_rx_offset < end) ⊎ (conn.max_rx_offset < conn.rx_offset + newly strm end))
          × account strm end conn ≡ (conn, err flow_control))
  account-exact = elim (ltb-cases strm.max_rx_offset end) [
    | inl (over, _) ↦ inr (inl over, account_over over)
    | inr (le, _) ↦ elim (ltb-cases 0 (newly strm end)) [
      | inr (none_new, _) ↦
          let same : newly strm end ≡ 0 = omega arith in
          let zero_more : conn.rx_offset + newly strm end ≡ conn.rx_offset = omega arith in
          inl (le, rw zero_more v.0, rw zero_more (account_same le same))
      | inl (new, _) ↦ elim (ltb-cases (conn.max_rx_offset - conn.rx_offset) (newly strm end)) [
        | inl (much, e) ↦ inr (inr (omega (arith, v.0)), account_more le new ∙ rw e refl)
        | inr (few, e) ↦
            let sum : add64 conn.rx_offset (newly strm end) ≡ conn.rx_offset + newly strm end =
              omega (arith, v.0, v.1) in
            inl (le, omega (arith, v.0), account_more le new ∙ rw (e, sum) refl)
      ]
    ]
  ]
