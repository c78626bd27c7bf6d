-- ===== src/Conn/Complete.antt =====
-- When a stream is complete: what the tests of `ngtcp2_conn_close_stream_if_shut_rdwr` say of the data.
use polygon.Base.{
  ℕ, ◌<◌, Bool, true, false, ◌&&◌, ◌||◌, List, [], ◌∷◌, ◌==◌, ◌≡◌, refl, ◌⊎◌, inl, inr, arith,
}
use polygon.Range.{Range}
use polygon.Range.Gaps.{in_range, in_gaps, IsGaps, in_gaps-below}
use polygon.Gaptr.{gaptr_first_gap_offset}
use polygon.Rob.{Rob, rob_first_gap_offset}
use polygon.Strm.{Strm}
use polygon.Conn.Close.{is_finished}

-- No offset below `n` lies in a gap.
abbrev pub AllBelow : ℕ → List Range → Type 0
AllBelow n gaps = (x : ℕ) → x < n → in_gaps x gaps ≡ false

-- The gaps of a stream are in order, no data at the end of what came in or went out, or behind it, having come in or
-- been acknowledged.
pub record IsKept (strm : Strm) : Type 0 where
  pub in_order : IsGaps 0 strm.rob.gaps
  pub in_end : in_gaps strm.last_rx_offset strm.rob.gaps ≡ true
  pub out_order : IsGaps 0 strm.acked_tx_offset
  pub out_end : in_gaps strm.tx_offset strm.acked_tx_offset ≡ true

-- Both directions are shut; the peer has reset the stream, or all its data has come in; this side has reset it, or
-- all the data that it sent is acknowledged.
abbrev pub IsComplete : Strm → Type 0
IsComplete strm =
    (strm.flags.shut_rd ≡ true)
    × (strm.flags.shut_wr ≡ true)
    × ((strm.flags.recv_rst ≡ true) ⊎ AllBelow strm.last_rx_offset strm.rob.gaps)
    × ((strm.flags.sent_rst ≡ true) ⊎ AllBelow strm.tx_offset strm.acked_tx_offset)

same_first :
    (rob : Rob) (gaps : List Range)
    → rob.gaps ≡ gaps
    → rob_first_gap_offset rob ≡ gaptr_first_gap_offset gaps
unfolding rob_first_gap_offset gaptr_first_gap_offset
same_first rob [] e = rw e refl
same_first rob (g ∷ gaps) e = rw e refl

-- The first gap begins at `n` exactly if nothing below is missing.
reached-AllBelow :
    (n : ℕ) (gaps : List Range)
    → IsGaps 0 gaps
    → (gaptr_first_gap_offset gaps == n) ≡ true
    → AllBelow n gaps
unfolding gaptr_first_gap_offset in_gaps in_range
reached-AllBelow n [] h e = λ x lt. refl
reached-AllBelow n (g ∷ gaps) (a, b, c, d) e =
    λ x lt. ground (arith, e, in_gaps-below g.end x gaps d)

AllBelow-reached :
    (n : ℕ) (gaps : List Range)
    → IsGaps 0 gaps
    → in_gaps n gaps ≡ true
    → AllBelow n gaps
    → (gaptr_first_gap_offset gaps == n) ≡ true
unfolding gaptr_first_gap_offset in_gaps in_range
AllBelow-reached n [] h here below = absurd (ground (arith, here))
AllBelow-reached n (g ∷ gaps) (a, b, c, d) here below =
    ground (arith, here, below g.begin, in_gaps-below g.end n gaps d)

or_true : (b : Bool) → (b || true) ≡ true
or_true true = refl
or_true false = refl

-- What the two halves of the test say.
and_true : (a b : Bool) → (a && b) ≡ true → (a ≡ true) × (b ≡ true)
and_true true true e = (refl, refl)
and_true true false e = (refl, e)
and_true false b e = absurd (ground (arith, e))

or-cases : (a b : Bool) → (a || b) ≡ true → (a ≡ true) ⊎ (b ≡ true)
or-cases true b e = inl refl
or-cases false b e = inr e

pub IsComplete-finished : (strm : Strm) → IsKept strm → IsComplete strm → is_finished strm ≡ true
unfolding is_finished
IsComplete-finished strm k (rd, wr, came, went) =
    let first = same_first strm.rob strm.rob.gaps refl in
    let all_in : (strm.flags.recv_rst || rob_first_gap_offset strm.rob == strm.last_rx_offset)
        ≡ true =
      elim came [
        | inl reset ↦ rw reset refl
        | inr below ↦
            let e = AllBelow-reached strm.last_rx_offset strm.rob.gaps k.in_order k.in_end below in
            rw (first, e) (or_true strm.flags.recv_rst)
      ] in
    let all_out : (strm.flags.sent_rst
          || gaptr_first_gap_offset strm.acked_tx_offset == strm.tx_offset)
        ≡ true =
      elim went [
        | inl reset ↦ rw reset refl
        | inr below ↦
            let e =
              AllBelow-reached strm.tx_offset strm.acked_tx_offset k.out_order k.out_end below in
            rw e (or_true strm.flags.sent_rst)
      ] in
    rw (rd, wr, all_in, all_out) refl

pub finished-IsComplete : (strm : Strm) → IsKept strm → is_finished strm ≡ true → IsComplete strm
unfolding is_finished
finished-IsComplete strm k e =
    let in_test = strm.flags.recv_rst || rob_first_gap_offset strm.rob == strm.last_rx_offset in
    let out_test =
      strm.flags.sent_rst || gaptr_first_gap_offset strm.acked_tx_offset == strm.tx_offset in
    let (e2, all_out) = and_true (strm.flags.shut_rd && strm.flags.shut_wr && in_test) out_test e in
    let (e1, all_in) = and_true (strm.flags.shut_rd && strm.flags.shut_wr) in_test e2 in
    let (rd, wr) = and_true strm.flags.shut_rd strm.flags.shut_wr e1 in
    let first = same_first strm.rob strm.rob.gaps refl in
    let came : (strm.flags.recv_rst ≡ true) ⊎ AllBelow strm.last_rx_offset strm.rob.gaps =
      elim (or-cases strm.flags.recv_rst (rob_first_gap_offset strm.rob == strm.last_rx_offset)
        all_in) [
          | inl reset ↦ inl reset
          | inr at ↦
              inr (reached-AllBelow strm.last_rx_offset strm.rob.gaps k.in_order (rw first at at))
        ] in
    let went : (strm.flags.sent_rst ≡ true) ⊎ AllBelow strm.tx_offset strm.acked_tx_offset =
      elim (or-cases strm.flags.sent_rst
        (gaptr_first_gap_offset strm.acked_tx_offset == strm.tx_offset) all_out) [
          | inl reset ↦ inl reset
          | inr at ↦ inr (reached-AllBelow strm.tx_offset strm.acked_tx_offset k.out_order at)
        ] in
    (rd, wr, came, went)
