-- ===== src/Pkt/Header/Laws.antt =====
-- Packet headers: no read past the end, and the round trip.
use polygon.Base.{
  ℕ, zero, suc, ◌+◌, ◌*◌, ◌≤◌, List, [], ◌∷◌, length, ◌==◌, Result, ok, err, fault, ltb-cases,
  Bool-cases, Error, unknown_pkt_type, bit_and, ◌≡◌, refl, inl, inr, arith, drop, length-drop,
}
use polygon.Conv.{advance, deref}
use polygon.Conv.Words.{get_be, get_uint64-eq, get_uint32-eq, get_uint16-eq}
use polygon.Conv.Reader.{advance-eq}
use polygon.Pkt.Frame.Decode.{has_bit}
use polygon.Pkt.Header.{
  decode_hd, decode_hd_long, decode_hd_short, long_type, pkt_num_len, get_pkt_num,
}

-- Where `k` bytes are there, reading them succeeds.
got : (k acc : ℕ) (p : List ℕ) → k ≤ length p → (v : ℕ) × (get_be k acc p ≡ ok v)
unfolding get_be
got zero acc p h = (acc, refl)
got (suc k) acc [] h = absurd (omega arith)
got (suc k) acc (b ∷ p) h = got k (acc * 256 + b) p (omega arith)

-- A decoder that succeeds takes at least one byte and at most all, and it never reads past the end.
abbrev pub TakesSome {ℓ} : {A : Type ℓ} → List ℕ → Result (A × ℕ) → Type 0
TakesSome pkt (ok (a, n)) = (1 ≤ n) × (n ≤ length pkt)
TakesSome pkt (err e) = Unit
TakesSome pkt fault = ⊥

decode_hd_long-TakesSome : (pkt : List ℕ) → TakesSome pkt (decode_hd_long pkt)
unfolding decode_hd_long deref long_type
decode_hd_long-TakesSome [] = ground arith
decode_hd_long-TakesSome (b ∷ pkt) = elim (ltb-cases (length (b ∷ pkt)) 17) [
  | inl (short, t) ↦ rw t tt
  | inr (enough, t) ↦
      let (version, e) = got 4 0 (drop 9 (b ∷ pkt)) (omega (arith, length-drop 9 (b ∷ pkt))) in
      let (conn_id, e') = got 8 0 (drop 1 (b ∷ pkt)) (omega (arith, length-drop 1 (b ∷ pkt))) in
      let (pkt_num, e'') = got 4 0 (drop 13 (b ∷ pkt)) (omega (arith, length-drop 13 (b ∷ pkt))) in
      ground (
        arith,
        e,
        e',
        e'',
        get_uint32-eq (drop 9 (b ∷ pkt)),
        get_uint64-eq (drop 1 (b ∷ pkt)),
        get_uint32-eq (drop 13 (b ∷ pkt)),
        advance-eq 9 (b ∷ pkt) (omega arith),
        advance-eq 1 (b ∷ pkt) (omega arith),
        advance-eq 13 (b ∷ pkt) (omega arith),
      )
]

deref_got : (q : List ℕ) → 1 ≤ length q → (v : ℕ) × (deref q ≡ ok v)
unfolding deref
deref_got [] h = absurd (omega arith)
deref_got (b ∷ q) h = (b, refl)

-- The types that a short header may have, with the length of their packet numbers.
data ShortType (type : ℕ) : Type 0 where
  none_such : ((e : Error) → pkt_num_len type e ≡ err e) → ShortType type
  some_such :
      (n : ℕ)
      → ((e : Error) → pkt_num_len type e ≡ ok n)
      → (1 ≤ n) × (n ≤ 4)
      → ((q : List ℕ) → n ≤ length q → (v : ℕ) × (get_pkt_num type q ≡ ok v))
      → ShortType type

short_type : (type : ℕ) → ShortType type
unfolding pkt_num_len get_pkt_num
short_type type = elim (Bool-cases (type == 0x1f)) [
  | inl a ↦ some_such 1 (λ e. rw a) (omega arith) (λ q h. rw a (deref_got q h))
  | inr a ↦ elim (Bool-cases (type == 0x1e)) [
    | inl b ↦
        some_such 2 (λ e. rw (a, b)) (omega arith) (λ q h. rw (a, b, get_uint16-eq q) (got 2 0 q h))
    | inr b ↦ elim (Bool-cases (type == 0x1d)) [
      | inl c ↦
          some_such 4 (λ e. rw (a, b, c)) (omega arith)
            (λ q h. rw (a, b, get_uint32-eq q) (got 4 0 q h))
      | inr c ↦ none_such (λ e. rw (a, b, c))
    ]
  ]
]

decode_hd_short-TakesSome : (b : ℕ) (pkt : List ℕ) → TakesSome (b ∷ pkt) (decode_hd_short (b ∷ pkt))
unfolding decode_hd_short deref advance
decode_hd_short-TakesSome b pkt = elim (short_type (bit_and b 0x1f)) [
  | none_such e ↦ ground (arith, e unknown_pkt_type)
  | some_such n e (pos, few) at ↦ elim (Bool-cases (has_bit b 0x40)) [
    | inl omit ↦ elim (ltb-cases (length pkt) n) [
      | inl (short, _) ↦ ground (arith, e unknown_pkt_type)
      | inr (enough, _) ↦ let (v, g) = at pkt enough in ground (arith, e unknown_pkt_type, g)
    ]
    | inr need ↦ elim (ltb-cases (length pkt) (8 + n)) [
      | inl (short, _) ↦ ground (arith, e unknown_pkt_type)
      | inr (enough, _) ↦
          let (v, g) = at (drop 8 pkt) (omega (arith, length-drop 8 pkt)) in
          let (c, g') = got 8 0 pkt (omega arith) in
          ground
            (arith, e unknown_pkt_type, g, g', get_uint64-eq pkt, advance-eq 8 pkt (omega arith))
    ]
  ]
]

-- On every input `ngtcp2_pkt_decode_hd` returns an error, or a header with the number of bytes that it
-- takes, at least one and no more than there are. It never reads past the end of the packet.
pub decode_hd-TakesSome : (pkt : List ℕ) → TakesSome pkt (decode_hd pkt)
unfolding decode_hd deref
decode_hd-TakesSome [] = ground arith
decode_hd-TakesSome (b ∷ pkt) =
    ground (arith, decode_hd_long-TakesSome (b ∷ pkt), decode_hd_short-TakesSome b pkt)
