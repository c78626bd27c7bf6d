-- ===== src/Ringbuf/Index.antt =====
-- Where the masks of ngtcp2_ringbuf.c lead: remainders by the number of slots, a power of two.
use polygon.Base.{
  ℕ, zero, suc, ◌+◌, ◌-◌, ◌%◌, ◌^◌, ◌≤◌, ◌<◌, true, false, subst, ◌==◌, ◌≡◌, refl, ap, ◌∙◌, sym,
  arith, bit_and, sub64, ltb-cases, inl, inr,
}
use polygon.Base.Bits.{all_below, table}
use polygon.Base.Digits.{bit_and-mask, pow-pos}
use native.Mathlib.Nat.{mod-eq_of_lt, mod_self, mod-eq-sub-mod, mod-add-mod, pow-le-pow_right}
use polygon.Ringbuf.{popcount}

-- 2 ^ k slots divide the range of `size_t`.
last_slot : (k : ℕ) → k < 32 → (2 ^ 64 - 1) % 2 ^ k + 1 ≡ 2 ^ k
unfolding all_below
last_slot = table 32 (λ k. (2 ^ 64 - 1) % 2 ^ k + 1) (λ k. 2 ^ k) refl

-- One step back from `first`, and forward again.
step_back :
    (k first : ℕ) → k ≤ 31 → first < 2 ^ 63 → (sub64 first 1 % 2 ^ k + 1) % 2 ^ k ≡ first % 2 ^ k
step_back k zero hk h =
    let wrapped : sub64 0 1 ≡ 2 ^ 64 - 1 = omega arith in
    let whole : (sub64 0 1 % 2 ^ k + 1) ≡ 2 ^ k =
      ap (λ x. x % 2 ^ k + 1) wrapped ∙ last_slot k (omega arith) in
    let none_left : 0 % 2 ^ k ≡ 0 = mod-eq_of_lt (pow-pos k) in
    ap (λ x. x % 2 ^ k) whole ∙ mod_self (2 ^ k) ∙ sym none_left
step_back k (suc f) hk h =
    let less : sub64 (suc f) 1 ≡ f = omega arith in
    let up : f + 1 ≡ suc f = omega arith in
    ap (λ x. (x % 2 ^ k + 1) % 2 ^ k) less ∙ mod-add-mod f (2 ^ k) 1 ∙ ap (λ x. x % 2 ^ k) up

-- Another slot than the one `suc i` steps further on.
pub other_slot : (n f i : ℕ) → f < n → suc i < n → ((f + suc i) % n == f) ≡ false
other_slot n f i hf hi = elim (ltb-cases (f + suc i) n) [
  | inl (lt, _) ↦ let same : (f + suc i) % n ≡ f + suc i = mod-eq_of_lt lt in ground arith
  | inr (ge, _) ↦
      let less : (f + suc i) % n ≡ f + suc i - n = mod-eq-sub-mod ge ∙ mod-eq_of_lt (omega arith) in
      ground arith
]

pub equal : (x : ℕ) → (x == x) ≡ true
equal x = ground arith

-- The mask that the code uses is the remainder by the number of slots.
pub mask_slots : (k n x : ℕ) → k ≤ 31 → n ≡ 2 ^ k → bit_and x (sub64 n 1) ≡ x % n
mask_slots k n x hk e =
    let pos : 0 < 2 ^ k = pow-pos k in
    let bounded : 2 ^ k ≤ 2 ^ 31 = pow-le-pow_right (omega arith) hk in
    let mask : sub64 n 1 ≡ 2 ^ k - 1 = omega arith in
    ap (bit_and x) mask ∙ bit_and-mask k x ∙ ap (λ m. x % m) (sym e)

-- From the slot before the first, `suc i` steps lead where `i` steps from the first do.
pub step_over :
    (k n first i : ℕ)
    → k ≤ 31
    → first < 2 ^ 63
    → n ≡ 2 ^ k
    → (sub64 first 1 % n + suc i) % n ≡ (first + i) % n
step_over k n first i hk h e =
    let f = sub64 first 1 % n in
    let split : f + suc i ≡ f + 1 + i = omega arith in
    let back : (f + 1) % n ≡ first % n =
      subst (λ m. (sub64 first 1 % m + 1) % m ≡ first % m) (sym e) (step_back k first hk h) in
    ap (λ x. x % n) split
    ∙ sym (mod-add-mod (f + 1) n i)
    ∙ ap (λ x. (x + i) % n) back
    ∙ mod-add-mod first n i

pub popcount-pow : (k : ℕ) → k < 32 → popcount 32 (2 ^ k) ≡ 1
unfolding all_below popcount
popcount-pow = table 32 (λ k. popcount 32 (2 ^ k)) (λ k. 1) refl
