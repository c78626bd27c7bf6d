-- ===== src/Acktr/Add.antt =====
-- `ngtcp2_acktr_add` keeps the entries with the greatest packet numbers, in order.
use polygon.Base.{
  ℕ, zero, suc, ◌^◌, ◌≤◌, ◌<◌, Bool, true, false, ◌||◌, List, [], ◌∷◌, length, take, take_ge, ltb,
  ◌==◌, ok, err, proto, ◌≡◌, refl, ap, sym, length-take, arith, add64, ltb-cases, lt→ltb,
  le→ltb_false, ==-cases, inl, inr,
}
use polygon.Acktr.{AcktrEntry, Acktr, insert_entry, drop_tail, acktr_add}

-- Packet numbers below `bound`, each below the one in front of it.
abbrev pub IsDescending : ℕ → List AcktrEntry → Type 0
IsDescending bound [] = Unit
IsDescending bound (e ∷ es) = (e.pkt_num < bound) × IsDescending e.pkt_num es

pub record IsAcktr (acktr : Acktr) : Type 0 where
  pub order : IsDescending (2 ^ 64) acktr.ent
  pub count : acktr.nack ≡ length acktr.ent
  pub few : acktr.nack ≤ 1024

-- Whether an entry has the packet number.
unfoldable pub holds : ℕ → List AcktrEntry → Bool
holds x [] = false
holds x (e ∷ es) = x == e.pkt_num || holds x es

pub holds-above :
    (bound : ℕ) (es : List AcktrEntry) (x : ℕ)
    → IsDescending bound es
    → bound ≤ x
    → holds x es ≡ false
unfolding holds
holds-above bound [] x d h = refl
holds-above bound (e ∷ es) x (lt, d) h = ground (arith, holds-above e.pkt_num es x d (omega arith))

-- What an insertion makes of the list.
record Inserted (bound : ℕ) (ent : AcktrEntry) (es : List AcktrEntry) (es' : List AcktrEntry)
    : Type 0 where
  order : IsDescending bound es'
  longer : length es' ≡ suc (length es)
  exact : (x : ℕ) → holds x es' ≡ (x == ent.pkt_num || holds x es)

data Insertion (bound : ℕ) (ent : AcktrEntry) (es : List AcktrEntry) : Type 0 where
  taken : holds ent.pkt_num es ≡ true → insert_entry ent es ≡ err proto → Insertion bound ent es
  done :
      (es' : List AcktrEntry)
      → holds ent.pkt_num es ≡ false
      → insert_entry ent es ≡ ok es'
      → Inserted bound ent es es'
      → Insertion bound ent es

insertion :
    (bound : ℕ) (ent : AcktrEntry) (es : List AcktrEntry)
    → ent.pkt_num < bound
    → IsDescending bound es
    → Insertion bound ent es
unfolding insert_entry holds
insertion bound ent [] hb d =
    done (ent ∷ []) refl refl (record { order = (hb, tt); longer = refl; exact = λ x. refl })
insertion bound ent (e ∷ es) hb (lt, d) = elim (ltb-cases ent.pkt_num e.pkt_num) [
  | inl (below, t) ↦ elim (insertion e.pkt_num ent es below d) [
    | taken h i ↦ taken (ground arith) (rw (t, i) refl)
    | done es' h i r ↦ done (e ∷ es') (ground arith) (rw (t, i) refl) (record {
      order = (lt, r.order);
      longer = ap suc r.longer;
      exact = λ x. ground (arith, r.exact x);
    })
  ]
  | inr (above, t) ↦ elim (==-cases e.pkt_num ent.pkt_num) [
    | inl (same, t') ↦ taken (ground arith) (rw (t, t') refl)
    | inr (other, t') ↦
        let higher : e.pkt_num < ent.pkt_num = ground arith in
        done (ent ∷ e ∷ es) (ground (arith, holds-above e.pkt_num es ent.pkt_num d))
          (rw (t, t') refl) (record { order = (hb, (higher, d)); longer = refl; exact = λ x. refl })
  ]
]

drop_tail-take : (es : List AcktrEntry) (n : ℕ) → length es ≡ suc n → drop_tail es ≡ take n es
unfolding drop_tail
drop_tail-take [] n h = absurd (omega arith)
drop_tail-take (e ∷ []) zero h = refl
drop_tail-take (e ∷ []) (suc n) h = absurd (omega arith)
drop_tail-take (e ∷ e' ∷ es) zero h = absurd (omega arith)
drop_tail-take (e ∷ e' ∷ es) (suc n) h = ap (λ l. e ∷ l) (drop_tail-take (e' ∷ es) n (omega arith))

pub take-IsDescending :
    (n bound : ℕ) (es : List AcktrEntry) → IsDescending bound es → IsDescending bound (take n es)
take-IsDescending zero bound es d = tt
take-IsDescending (suc n) bound [] d = tt
take-IsDescending (suc n) bound (e ∷ es) (lt, d) = (lt, take-IsDescending n e.pkt_num es d)

-- What a successful addition makes of the tracker: `all` are the old entries and the new one.
pub record Added (ent : AcktrEntry) (active_ack : Bool) (before after : Acktr) : Type 0 where
  all : List AcktrEntry
  ordered : IsDescending (2 ^ 64) all
  exact : (x : ℕ) → holds x all ≡ (x == ent.pkt_num || holds x before.ent)
  kept : after.ent ≡ take 1024 all
  active : after.active_ack ≡ (active_ack || before.active_ack)
  well_formed : IsAcktr after

pub data Addition (ent : AcktrEntry) (active_ack : Bool) (acktr : Acktr) : Type 0 where
  refused :
      holds ent.pkt_num acktr.ent ≡ true
      → acktr_add ent active_ack acktr ≡ err proto
      → Addition ent active_ack acktr
  added :
      (after : Acktr)
      → holds ent.pkt_num acktr.ent ≡ false
      → acktr_add ent active_ack acktr ≡ ok after
      → Added ent active_ack acktr after
      → Addition ent active_ack acktr

-- `ngtcp2_acktr_add` refuses a packet number that an entry has with PROTO. Any other it adds, in descending
-- order, and keeps the 1024 greatest; the list stays in order, and `nack` its length.
pub acktr_add-Addition :
    (ent : AcktrEntry) (active_ack : Bool) (acktr : Acktr)
    → ent.pkt_num < 2 ^ 64
    → IsAcktr acktr
    → Addition ent active_ack acktr
unfolding acktr_add
acktr_add-Addition ent active_ack acktr h a = elim (insertion (2 ^ 64) ent acktr.ent h a.order) [
  | taken held i ↦ refused held (rw i refl)
  | done es free i r ↦ elim (ltb-cases 1024 (length es)) [
    | inl (full, t) ↦
        let whole : length es ≡ 1025 = omega (arith, r.longer, a.count, a.few) in
        let cut_tail : drop_tail es ≡ take 1024 es = drop_tail-take es 1024 whole in
        let after : Acktr = record {
          ent = take 1024 es;
          nack = 1024;
          active_ack = active_ack || acktr.active_ack;
        } in
        let next : add64 acktr.nack 1 ≡ 1025 = omega (arith, r.longer, a.count) in
        let some_entry : ltb 0 (length es) ≡ true = lt→ltb 0 (length es) (omega arith) in
        added after free (rw (i, some_entry, next, cut_tail) refl) (record {
          all = es;
          ordered = r.order;
          exact = r.exact;
          kept = refl;
          active = refl;
          well_formed = record {
            order = take-IsDescending 1024 (2 ^ 64) es r.order;
            count = omega (arith, length-take 1024 es (omega arith));
            few = omega arith;
          };
        })
    | inr (room, t) ↦
        let after : Acktr = record {
          ent = es;
          nack = suc acktr.nack;
          active_ack = active_ack || acktr.active_ack;
        } in
        let next : add64 acktr.nack 1 ≡ suc acktr.nack = omega (arith, a.few) in
        let some_entry : ltb 0 (length es) ≡ true =
          lt→ltb 0 (length es) (omega (arith, r.longer)) in
        let not_full : ltb 1024 (suc acktr.nack) ≡ false =
          le→ltb_false 1024 (suc acktr.nack) (omega (arith, r.longer, a.count)) in
        added after free (rw (i, some_entry, next, not_full) refl) (record {
          all = es;
          ordered = r.order;
          exact = r.exact;
          kept = sym (take_ge 1024 es room);
          active = refl;
          well_formed = record {
            order = r.order;
            count = omega (arith, r.longer, a.count);
            few = omega (arith, r.longer, a.count);
          };
        })
  ]
]
