-- ===== src/Acktr.antt =====
-- Polygon/lib/ngtcp2_acktr.c: the packets that are to be acknowledged, the one with the greatest number
-- first. A pointer to an entry is its position in the list.
pub mod Add
pub mod Ack
pub mod AckExact
pub mod Remove
mod Tests
use polygon.Base.{
  ℕ, zero, suc, ◌-◌, Bool, true, false, ◌||◌, not, List, [], ◌∷◌, length, take, ltb, ◌==◌,
  if◌then◌else◌, Result, ok, err, fault, ◌>>=◌, ◌>>◌, assert, proto, add64, sub64,
}

pub record AcktrEntry : Type 0 where
  pub pkt_num : ℕ
  pub tstamp : ℕ
  pub unprotected : Bool

-- Without the ring buffer of the ACK frames that were sent.
pub record Acktr : Type 0 where
  pub ent : List AcktrEntry
  pub nack : ℕ
  pub active_ack : Bool

-- NGTCP2_ACKTR_MAX_ENT
abbrev pub max_ent : ℕ
max_ent = 1024

-- The walk to the place of a new entry, and its insertion.
unfoldable pub insert_entry : AcktrEntry → List AcktrEntry → Result (List AcktrEntry)
insert_entry ent [] = ok (ent ∷ [])
insert_entry ent (e ∷ es) =
    let rest = insert_entry ent es in
    if ltb ent.pkt_num e.pkt_num
    then (do es' ← rest; ok (e ∷ es'))
    else if e.pkt_num == ent.pkt_num
    then err proto
    else ok (ent ∷ e ∷ es)

-- The list without its tail entry.
unfoldable pub drop_tail : List AcktrEntry → List AcktrEntry
drop_tail [] = []
drop_tail (e ∷ []) = []
drop_tail (e ∷ e' ∷ es) = e ∷ drop_tail (e' ∷ es)

unfoldable pub acktr_add : AcktrEntry → Bool → Acktr → Result Acktr
unfolding insert_entry drop_tail
acktr_add ent active_ack acktr = do
  es ← insert_entry ent acktr.ent
  let active = active_ack || acktr.active_ack
  let nack = add64 acktr.nack 1
  assert (ltb 0 (length es))
  ok (
      if ltb max_ent nack
      then record { ent = drop_tail es; nack = sub64 nack 1; active_ack = active }
      else record { ent = es; nack = nack; active_ack = active })

-- The entry at position `i`, and all behind it, are deleted.
unfoldable pub acktr_forget : ℕ → Acktr → Acktr
acktr_forget i acktr = record acktr {
  ent = take i acktr.ent;
  nack = sub64 acktr.nack (length acktr.ent - i);
}

unfoldable pub pop_entry : List AcktrEntry → Result (List AcktrEntry)
pop_entry [] = fault
pop_entry (e ∷ es) = ok es

unfoldable pub acktr_pop : Acktr → Result Acktr
unfolding pop_entry
acktr_pop acktr = do
  es ← pop_entry acktr.ent
  ok (record acktr { ent = es; nack = sub64 acktr.nack 1 })
