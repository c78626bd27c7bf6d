-- ===== src/Acktr/Tests.antt =====
-- Runs of ngtcp2_acktr.c on small inputs.
use polygon.Base.{ℕ, [], ◌∷◌, true, false, ok, err, proto, ◌≡◌, refl, arith, not, ◌&&◌, ltb}
use polygon.Pkt.Frame.{Ack}
use polygon.Pkt.Validate.{validate_ack}
use polygon.Acktr.Ack.{remove_acked, acknowledges}
use polygon.Acktr.AckExact.{remove_acked-exact}
use polygon.Acktr.{AcktrEntry, Acktr, acktr_add, acktr_forget, acktr_pop}
use polygon.Acktr.Add.{IsAcktr, holds, Addition, acktr_add-Addition}
use polygon.Acktr.Remove.{acktr_forget-IsAcktr, acktr_pop-IsAcktr}

abbrev packet_at : ℕ → AcktrEntry
packet_at n = record { pkt_num = n; tstamp = 100; unprotected = false }

abbrev nine_and_four : Acktr
nine_and_four = record { ent = packet_at 9 ∷ packet_at 4 ∷ []; nack = 2; active_ack = false }

nine_and_four-IsAcktr : IsAcktr nine_and_four
nine_and_four-IsAcktr = record {
  order = (omega arith, (omega arith, tt));
  count = refl;
  few = omega arith;
}

add_seven :
    acktr_add (packet_at 7) true nine_and_four
    ≡ ok
        (record { ent = packet_at 9 ∷ packet_at 7 ∷ packet_at 4 ∷ []; nack = 3; active_ack = true })
unfolding acktr_add
add_seven = refl

add_four_again : acktr_add (packet_at 4) true nine_and_four ≡ err proto
unfolding acktr_add
add_four_again = refl

acktr_add-Addition_example : Addition (packet_at 7) true nine_and_four
acktr_add-Addition_example =
    acktr_add-Addition (packet_at 7) true nine_and_four (omega arith) nine_and_four-IsAcktr

acktr_forget-IsAcktr_example :
    IsAcktr (acktr_forget 1 nine_and_four)
    × ((x : ℕ)
        → holds x (acktr_forget 1 nine_and_four).ent ≡ (holds x nine_and_four.ent && ltb 4 x))
acktr_forget-IsAcktr_example =
    acktr_forget-IsAcktr nine_and_four (packet_at 9 ∷ []) (packet_at 4) [] refl
      nine_and_four-IsAcktr

acktr_pop-IsAcktr_example :
    (after : Acktr) × (acktr_pop nine_and_four ≡ ok after)
    × (after.ent ≡ packet_at 4 ∷ [])
    × IsAcktr after
acktr_pop-IsAcktr_example =
    acktr_pop-IsAcktr nine_and_four (packet_at 9) (packet_at 4 ∷ []) refl nine_and_four-IsAcktr

-- Packets 9 and 7, without 8.
abbrev nine_and_seven : Ack
nine_and_seven = record {
  largest_ack = 9;
  ack_delay = 0;
  first_ack_blklen = 0;
  blks = record { gap = 0; blklen = 0 } ∷ [];
}

valid_nine_and_seven : validate_ack nine_and_seven ≡ ok tt
unfolding validate_ack
valid_nine_and_seven = refl

settle_nine : remove_acked nine_and_seven nine_and_four.ent ≡ packet_at 4 ∷ []
unfolding remove_acked
settle_nine = refl

remove_acked-exact_example :
    holds 9 (remove_acked nine_and_seven nine_and_four.ent)
    ≡ (holds 9 nine_and_four.ent && not (acknowledges 9 nine_and_seven))
remove_acked-exact_example =
    remove_acked-exact nine_and_seven nine_and_four.ent 9 (omega arith) (omega arith)
      (record { gap_fits = omega arith; blklen_fits = omega arith }, tt) valid_nine_and_seven
      (omega arith, (omega arith, tt))
