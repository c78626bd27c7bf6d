-- ===== src/Conv/Words.antt =====
-- Integers of a fixed width: what is written in network byte order is read back.
use polygon.Base.{
  ℕ, zero, suc, bit_and, Result, err, fault, ◌>>=◌, [], ◌∷◌, ◌+◌, ◌*◌, ◌/◌, ◌%◌, ◌^◌, List, ◌++◌,
  ◌≡◌, refl, ap, ◌∙◌, arith, ok, length, All, IsByte, ◌<◌, drop, subst, drop-length-append,
}
use native.Mathlib.Nat.{pow-suc, div-add-mod, mod-eq-sub-div-mul, div-div-eq-div-mul, mod-eq_of_lt}
use polygon.Conv.{
  cpymem, from_network, put_be, get_uint64, get_uint48, get_uint32, get_uint24, get_uint16,
  get_masked, mask_top, put_uint64be, put_uint48be, put_uint32be, put_uint24be, put_uint16be,
}

-- The number that `k` bytes in network byte order stand for, behind those that `acc` stands for, read one by one.
unfoldable pub get_be : ℕ → ℕ → List ℕ → Result ℕ
get_be zero acc p = ok acc
get_be (suc k) acc [] = fault
get_be (suc k) acc (b ∷ p) = get_be k (acc * 256 + b) p

then_same :
    {A B : Type 0} (r : Result A) (f : A → B) (g : B → ℕ)
    → (do b ← (do a ← r; ok (f a)); ok (g b)) ≡ (do a ← r; ok (g (f a)))
then_same (ok a) f g = refl
then_same (err e) f g = refl
then_same fault f g = refl

-- Bytes that are copied and then turned are those read one by one.
copied :
    (k acc : ℕ) (p : List ℕ) → (do bytes ← cpymem k p; ok (from_network acc bytes)) ≡ get_be k acc p
unfolding cpymem from_network get_be
copied zero acc p = refl
copied (suc k) acc [] = refl
copied (suc k) acc (b ∷ p) =
    then_same (cpymem k p) (λ bytes. b ∷ bytes) (from_network acc) ∙ copied k (acc * 256 + b) p

pub get_uint64-eq : (p : List ℕ) → get_uint64 p ≡ get_be 8 0 p
unfolding get_uint64
get_uint64-eq = copied 8 0

pub get_uint48-eq : (p : List ℕ) → get_uint48 p ≡ get_be 6 0 p
unfolding get_uint48 from_network
get_uint48-eq = copied 6 0

pub get_uint32-eq : (p : List ℕ) → get_uint32 p ≡ get_be 4 0 p
unfolding get_uint32
get_uint32-eq = copied 4 0

pub get_uint24-eq : (p : List ℕ) → get_uint24 p ≡ get_be 3 0 p
unfolding get_uint24 from_network
get_uint24-eq = copied 3 0

pub get_uint16-eq : (p : List ℕ) → get_uint16 p ≡ get_be 2 0 p
unfolding get_uint16
get_uint16-eq = copied 2 0

pub get_masked-eq :
    (k b : ℕ) (p : List ℕ) → get_masked (suc k) (b ∷ p) ≡ get_be k (bit_and b 0x3f) p
unfolding get_masked cpymem from_network mask_top
get_masked-eq k b p =
    let first : 0 * 256 + bit_and b 0x3f ≡ bit_and b 0x3f = omega arith in
    then_same (cpymem k p) (λ bytes. b ∷ bytes) (λ bytes. from_network 0 (mask_top bytes))
    ∙ copied k (0 * 256 + bit_and b 0x3f) p
    ∙ ap (λ acc. get_be k acc p) first

-- The digit at `M` joins the digits below it.
digit_join : (n M : ℕ) → n % (M * 256) ≡ n / M % 256 * M + n % M
digit_join n M = omega (
  arith,
  mod-eq-sub-div-mul n (M * 256),
  ap (λ (t : ℕ). t * (M * 256)) (div-div-eq-div-mul n M 256),
  div-add-mod n M,
  ap (λ (t : ℕ). t * M) (div-add-mod (n / M) 256),
)

pub length-put_be : (k n : ℕ) → length (put_be k n) ≡ k
unfolding put_be
length-put_be zero n = refl
length-put_be (suc k) n = ap suc (length-put_be k n)

pub put_be-IsByte : (k n : ℕ) → All IsByte (put_be k n)
unfolding put_be
put_be-IsByte zero n = tt
put_be-IsByte (suc k) n = (omega arith, put_be-IsByte k n)

pub get_be-put_be_acc :
    (k acc n : ℕ) (rest : List ℕ)
    → get_be k acc (put_be k n ++ rest) ≡ ok (acc * 256 ^ k + n % 256 ^ k)
unfolding get_be put_be
get_be-put_be_acc zero acc n rest = ap ok (omega arith)
get_be-put_be_acc (suc k) acc n rest =
    get_be-put_be_acc k (acc * 256 + n / 256 ^ k % 256) n rest
    ∙ ap ok (
        omega (
          arith,
          digit_join n (256 ^ k),
          ap (λ (t : ℕ). n % t) (pow-suc 256 k),
          ap (λ (t : ℕ). acc * t) (pow-suc 256 k),
        ))

-- A number of `k` bytes that is written in network byte order is read back, whatever follows it.
pub get_be-put_be : (k n : ℕ) (rest : List ℕ) → n < 256 ^ k → get_be k 0 (put_be k n ++ rest) ≡ ok n
get_be-put_be k n rest h = get_be-put_be_acc k 0 n rest ∙ ap ok (omega (arith, mod-eq_of_lt h))

pub drop-put_be : (k n : ℕ) (rest : List ℕ) → drop k (put_be k n ++ rest) ≡ rest
drop-put_be k n rest =
    subst (λ j. drop j (put_be k n ++ rest) ≡ rest) (length-put_be k n)
      (drop-length-append (put_be k n) rest)

-- An integer that is written in `w` bytes is read back, cut to `w` bytes, whatever follows it.
abbrev pub ReadsWord : (List ℕ → Result ℕ) → (ℕ → List ℕ) → ℕ → ℕ → List ℕ → Type 0
ReadsWord get put w n rest = (length (put n) ≡ w) × (get (put n ++ rest) ≡ ok (n % 256 ^ w))

be-ReadsWord : (k n : ℕ) (rest : List ℕ) → get_be k 0 (put_be k n ++ rest) ≡ ok (n % 256 ^ k)
be-ReadsWord k n rest = get_be-put_be_acc k 0 n rest ∙ ap ok (omega arith)

-- The five readers read back what the five writers write, which is as many bytes as their names say: a number comes
-- back cut to that many bytes, whatever follows it.
pub all_widths-ReadsWord :
    (n : ℕ) (rest : List ℕ)
    → ReadsWord get_uint64 put_uint64be 8 n rest
      × ReadsWord get_uint48 put_uint48be 6 n rest
      × ReadsWord get_uint32 put_uint32be 4 n rest
      × ReadsWord get_uint24 put_uint24be 3 n rest
      × ReadsWord get_uint16 put_uint16be 2 n rest
unfolding put_be
all_widths-ReadsWord n rest = (
  (length-put_be 8 n, get_uint64-eq (put_be 8 n ++ rest) ∙ be-ReadsWord 8 n rest),
  (length-put_be 6 n, get_uint48-eq (put_be 6 n ++ rest) ∙ be-ReadsWord 6 n rest),
  (length-put_be 4 n, get_uint32-eq (put_be 4 n ++ rest) ∙ be-ReadsWord 4 n rest),
  (length-put_be 3 n, get_uint24-eq (put_be 3 n ++ rest) ∙ be-ReadsWord 3 n rest),
  (length-put_be 2 n, get_uint16-eq (put_be 2 n ++ rest) ∙ be-ReadsWord 2 n rest),
)
