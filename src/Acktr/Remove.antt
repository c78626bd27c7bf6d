-- ===== src/Acktr/Remove.antt =====
-- `ngtcp2_acktr_forget` and `ngtcp2_acktr_pop` leave the other entries, in order.
use polygon.Base.{
  ℕ, suc, ◌^◌, ◌≤◌, ◌<◌, List, [], ◌∷◌, length, ok, ◌≡◌, refl, subst, arith, sub64, ◌+◌, ◌++◌, ◌&&◌,
  ltb, take, ap, ◌∙◌, length-append,
}
use polygon.Acktr.{AcktrEntry, Acktr, acktr_forget, acktr_pop}
use polygon.Acktr.Add.{IsDescending, IsAcktr, take-IsDescending, holds, holds-above}

take_before : (before behind : List AcktrEntry) → take (length before) (before ++ behind) ≡ before
take_before [] behind = refl
take_before (e ∷ before) behind = ap (λ es. e ∷ es) (take_before before behind)

below_first :
    (bound : ℕ) (before : List AcktrEntry) (e : AcktrEntry) (behind : List AcktrEntry)
    → IsDescending bound (before ++ (e ∷ behind))
    → e.pkt_num < bound
below_first bound [] e behind (lt, d) = lt
below_first bound (f ∷ before) e behind (lt, d) =
    omega (arith, below_first f.pkt_num before e behind d)

-- In front of an entry stand those with greater packet numbers, behind it those with smaller ones.
holds-before :
    (bound : ℕ) (before : List AcktrEntry) (e : AcktrEntry) (behind : List AcktrEntry) (x : ℕ)
    → IsDescending bound (before ++ (e ∷ behind))
    → holds x before ≡ (holds x (before ++ (e ∷ behind)) && ltb e.pkt_num x)
unfolding holds
holds-before bound [] e behind x (lt, d) = ground (arith, holds-above e.pkt_num behind x d)
holds-before bound (f ∷ before) e behind x (lt, d) =
    ground
      (arith, holds-before f.pkt_num before e behind x d, below_first f.pkt_num before e behind d)

-- `ngtcp2_acktr_forget` of an entry forgets it and all entries with smaller packet numbers, and keeps all others; the
-- tracker stays in order with `nack` the number of its entries.
pub acktr_forget-IsAcktr :
    (acktr : Acktr) (before : List AcktrEntry) (e : AcktrEntry) (behind : List AcktrEntry)
    → acktr.ent ≡ before ++ (e ∷ behind)
    → IsAcktr acktr
    → IsAcktr (acktr_forget (length before) acktr)
      × ((x : ℕ)
          → holds x (acktr_forget (length before) acktr).ent
            ≡ (holds x acktr.ent && ltb e.pkt_num x))
unfolding acktr_forget
acktr_forget-IsAcktr acktr before e behind h a =
    let order : IsDescending (2 ^ 64) (before ++ (e ∷ behind)) =
      subst (IsDescending (2 ^ 64)) h a.order in
    let total : length acktr.ent ≡ length before + suc (length behind) =
      ap length h ∙ length-append before (e ∷ behind) in
    let kept : take (length before) acktr.ent ≡ before =
      ap (take (length before)) h ∙ take_before before (e ∷ behind) in
    (
      record {
        order = take-IsDescending (length before) (2 ^ 64) acktr.ent a.order;
        count = omega (arith, total, ap length kept, a.count, a.few);
        few = omega (arith, a.count, a.few);
      },
      λ x. rw (kept, h) (holds-before (2 ^ 64) before e behind x order),
    )

weaken :
    (bound bound' : ℕ) (es : List AcktrEntry)
    → bound ≤ bound'
    → IsDescending bound es
    → IsDescending bound' es
weaken bound bound' [] le d = tt
weaken bound bound' (e ∷ es) le (lt, d) = (omega arith, d)

-- Popping the entry with the greatest packet number leaves the others, in order, with `nack` their number.
pub acktr_pop-IsAcktr :
    (acktr : Acktr) (e : AcktrEntry) (es : List AcktrEntry)
    → acktr.ent ≡ e ∷ es
    → IsAcktr acktr
    → (after : Acktr) × (acktr_pop acktr ≡ ok after) × (after.ent ≡ es) × IsAcktr after
unfolding acktr_pop
acktr_pop-IsAcktr acktr e es h a =
    let order : IsDescending (2 ^ 64) (e ∷ es) = subst (IsDescending (2 ^ 64)) h a.order in
    let total : length acktr.ent ≡ suc (length es) = rw h refl in
    let after : Acktr = record acktr { ent = es; nack = sub64 acktr.nack 1 } in
    (
      after,
      rw h refl,
      refl,
      record {
        order = weaken e.pkt_num (2 ^ 64) es (omega (arith, order.0)) order.1;
        count = omega (arith, total, a.count, a.few);
        few = omega (arith, a.count, a.few, total);
      },
    )
