-- ===== src/Idtr/Tests.antt =====
-- Runs of ngtcp2_idtr.c on small inputs.
use polygon.Base.{◌-◌, ◌^◌, [], ◌∷◌, ok, true, false, ◌≡◌, refl, arith}
use polygon.Range.{range_init, range_len}
use polygon.Idtr.{Idtr, idtr_init, idtr_first_gap, initiator_test, idtr_open}
use polygon.Idtr.Used.{open_all, Remembers, open_all-Remembers}

abbrev fresh : Idtr
fresh = record { server = false; gaps = range_init 0 (2 ^ 64 - 1) ∷ [] }

init_fresh : idtr_init true false ≡ ok fresh
unfolding idtr_init
init_fresh = refl

-- Identifiers 0, 1, 4, 3 and 2 are used: 3 leaves an empty gap in front of 4, and that is then the first.
first_gap_empty : idtr_first_gap (open_all (0 ∷ 4 ∷ 16 ∷ 12 ∷ 8 ∷ []) fresh) ≡ 4
unfolding idtr_first_gap open_all idtr_open range_len range_init
first_gap_empty = refl

passes_even : initiator_test false 4 ≡ true
unfolding initiator_test
passes_even = refl

-- A tracker of the streams of a server lets pass those of a client.
passes_wrong : initiator_test true 4 ≡ true
unfolding initiator_test
passes_wrong = refl

open_all-Remembers_example : Remembers false (4 ∷ 4 ∷ []) (open_all (4 ∷ 4 ∷ []) fresh)
open_all-Remembers_example =
    open_all-Remembers false (4 ∷ 4 ∷ []) fresh
      ((omega arith, passes_even), ((omega arith, passes_even), tt)) init_fresh
