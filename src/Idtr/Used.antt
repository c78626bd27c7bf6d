-- ===== src/Idtr/Used.antt =====
-- What an identifier tracker knows after any sequence of attempts to open streams.
use polygon.Base.{
  ℕ, ◌-◌, ◌/◌, ◌<◌, ◌^◌, Bool, false, true, not, ◌||◌, List, [], ◌∷◌, All, ◌==◌, if◌then◌else◌, ◌≡◌,
  refl, ap, subst, ◌∙◌, arith, Result, ok, err, stream_in_use,
}
use polygon.Range.{Range, range_init}
use polygon.Range.Gaps.{in_range, in_gaps, IsAscending, in_gaps-ascending}
use polygon.Idtr.{
  Idtr, open_gaps, idtr_init, idtr_open, idtr_is_open, idtr_first_gap, idtr_gap_new, initiator_test,
  id_from_stream_id, first_begin,
}
use polygon.Idtr.Open.{Uses, open_gaps-Uses, find_open-in_gaps}

-- The attempts, one after the other, with memory at hand; what they answer is looked at below.
unfoldable pub open_all : List ℕ → Idtr → Idtr
open_all [] idtr = idtr
open_all (stream_id ∷ ids) idtr = open_all ids (idtr_open true idtr stream_id).0

-- Whether a stream with the identifier of `stream_id`, less its two low bits, is among those.
unfoldable pub is_used : ℕ → List ℕ → Bool
is_used stream_id [] = false
is_used stream_id (i ∷ ids) = stream_id / 4 == i / 4 || is_used stream_id ids

-- A stream identifier that fits its encoding, and that the assertion lets pass.
abbrev pub IsStreamId : Bool → ℕ → Type 0
IsStreamId server stream_id = (stream_id < 2 ^ 62) × (initiator_test server stream_id ≡ true)

-- The state when the streams that `used` tells have been opened.
record Knows (server : Bool) (used : ℕ → Bool) (idtr : Idtr) : Type 0 where
  side : idtr.server ≡ server
  order : IsAscending 0 idtr.gaps
  exact : (s : ℕ) → s < 2 ^ 62 → in_gaps (s / 4) idtr.gaps ≡ not (used s)
  unused : in_gaps (2 ^ 62) idtr.gaps ≡ true

Knows-same :
    (server : Bool) (used used' : ℕ → Bool) (idtr : Idtr)
    → ((s : ℕ) → used s ≡ used' s)
    → Knows server used idtr
    → Knows server used' idtr
Knows-same server used used' idtr same k = record {
  side = k.side;
  order = k.order;
  exact = λ s h. k.exact s h ∙ ap not (same s);
  unused = k.unused;
}

idtr_init-Knows :
    (server : Bool) (start : Idtr)
    → idtr_init true server ≡ ok start
    → Knows server (λ s. false) start
unfolding range_init in_gaps in_range idtr_init idtr_gap_new
idtr_init-Knows server start e =
    let fresh : Idtr = record { server = server; gaps = range_init 0 (2 ^ 64 - 1) ∷ [] } in
    let k : Knows server (λ s. false) fresh = record {
      side = refl;
      order = (omega arith, omega arith, omega arith, tt);
      exact = λ s h. ground arith;
      unused = refl;
    } in
    let same : fresh ≡ start = ground arith in subst (Knows server (λ s. false)) same k

-- One attempt: what it answers, and what is known after it.
record Attempt (server : Bool) (used : ℕ → Bool) (i : ℕ) (p : Idtr × Result (Unit {0}))
    : Type 0 where
  answer : p.1 ≡ (if used i then err stream_in_use else ok tt)
  known : Knows server (λ s. used s || s / 4 == i / 4) p.0

idtr_open-Attempt :
    (server : Bool) (used : ℕ → Bool) (idtr : Idtr) (i : ℕ)
    → IsStreamId server i
    → Knows server used idtr
    → Attempt server used i (idtr_open true idtr i)
idtr_open-Attempt server used idtr i (hi, passes) k =
    let u : Uses 0 (i / 4) idtr.gaps (open_gaps true (i / 4) idtr.gaps) =
      open_gaps-Uses 0 (i / 4) idtr.gaps k.order in
    let passes' : initiator_test idtr.server i ≡ true =
      ap (λ b. initiator_test b i) k.side ∙ passes in
    unfold idtr_open id_from_stream_id in
    rw passes' (record {
      answer = ground (arith, u.result, k.exact i hi);
      known = record {
        side = k.side;
        order = u.order;
        exact = λ s hs. ground (arith, u.exact (s / 4), k.exact s hs);
        unused = ground (arith, u.exact (2 ^ 62), k.unused);
      };
    })

open_all-Knows :
    (server : Bool) (used : ℕ → Bool) (ids : List ℕ) (idtr : Idtr)
    → All (IsStreamId server) ids
    → Knows server used idtr
    → Knows server (λ s. used s || is_used s ids) (open_all ids idtr)
unfolding open_all is_used
open_all-Knows server used [] idtr h k = Knows-same server used _ idtr (λ s. ground arith) k
open_all-Knows server used (i ∷ ids) idtr (hi, h) k =
    let a : Attempt server used i (idtr_open true idtr i) =
      idtr_open-Attempt server used idtr i hi k in
    let used' : ℕ → Bool = λ s. used s || s / 4 == i / 4 in
    let after = (idtr_open true idtr i).0 in
    Knows-same server (λ s. used' s || is_used s ids) _ (open_all ids after) (λ s. ground arith)
      (open_all-Knows server used' ids after h a.known)

first_begin-below :
    (x : ℕ) (gaps : List Range) → IsAscending 0 gaps → x < first_begin gaps → in_gaps x gaps ≡ false
unfolding in_gaps in_range first_begin
first_begin-below x [] hg h = refl
first_begin-below x (g ∷ gaps) (a, b, c, hg) h = ground (arith, in_gaps-ascending g.end x gaps hg)

-- What an identifier tracker promises after the attempts on `ids`.
pub record Remembers (server : Bool) (ids : List ℕ) (idtr : Idtr) : Type 0 where
  open_again :
      (s : ℕ)
      → IsStreamId server s
      → (idtr_open true idtr s).1 ≡ (if is_used s ids then err stream_in_use else ok tt)
  asked :
      (s : ℕ)
      → IsStreamId server s
      → idtr_is_open idtr s ≡ (if is_used s ids then err stream_in_use else ok tt)
  before_first : (s : ℕ) → s < 2 ^ 62 → s / 4 < idtr_first_gap idtr → is_used s ids ≡ true

-- Whatever streams are opened, in whatever order and however often: `ngtcp2_idtr_open` and
-- `ngtcp2_idtr_is_open` answer STREAM_IN_USE exactly for the streams whose identifiers were opened before,
-- and all identifiers below `ngtcp2_idtr_first_gap` were.
pub open_all-Remembers :
    (server : Bool) (ids : List ℕ) (start : Idtr)
    → All (IsStreamId server) ids
    → idtr_init true server ≡ ok start
    → Remembers server ids (open_all ids start)
open_all-Remembers server ids start h e =
    let after : Idtr = open_all ids start in
    let k : Knows server (λ s. is_used s ids) after =
      open_all-Knows server (λ s. false) ids start h (idtr_init-Knows server start e) in
    record {
      open_again = λ s hs. (idtr_open-Attempt server (λ s. is_used s ids) after s hs k).answer;
      asked = λ s (hs, passes).
          let passes' : initiator_test after.server s ≡ true =
            ap (λ b. initiator_test b s) k.side ∙ passes in
          unfold idtr_is_open id_from_stream_id in
          rw passes' (
            find_open-in_gaps (s / 4) after.gaps 0 (2 ^ 62) k.order (omega arith) k.unused
            ∙ ground (arith, k.exact s hs));
      before_first = λ s hs lt.
          unfold idtr_first_gap in
          ground (arith, k.exact s hs, first_begin-below (s / 4) after.gaps k.order);
    }
