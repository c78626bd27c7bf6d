-- ===== src/Gaptr/Tests.antt =====
-- Runs of ngtcp2_gaptr.c on small inputs.
use polygon.Base.{[], ◌∷◌, ok, err, nomem, true, false, ◌≡◌, refl, arith}
use polygon.Range.{range_init, range_intersect, range_len, range_equal, range_cut, range_not_after}
use polygon.Gaptr.{gaptr_push}
use polygon.Gaptr.Received.{Tracked, gaptr-Tracked}

-- Bytes 10 to 19 of a stream come in.
push_ten :
    gaptr_push true 10 10 (range_init 0 100 ∷ [])
    ≡ (range_init 0 10 ∷ range_init 20 100 ∷ [], ok tt)
unfolding gaptr_push range_intersect range_len range_equal range_cut range_not_after
push_ten = refl

-- Without memory the rest of the gap is lost.
push_without_memory :
    gaptr_push false 10 10 (range_init 0 100 ∷ []) ≡ (range_init 0 10 ∷ [], err nomem)
unfolding gaptr_push range_intersect range_len range_equal range_cut range_not_after
push_without_memory = refl

gaptr-Tracked_example : Tracked ((10, 10) ∷ (0, 12) ∷ [])
gaptr-Tracked_example = gaptr-Tracked ((10, 10) ∷ (0, 12) ∷ []) (omega arith, (omega arith, tt))
