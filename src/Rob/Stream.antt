-- ===== src/Rob/Stream.antt =====
-- A reorder buffer in good order as a part of a stream: everything below `base` has been handed out, and what
-- has come in from `base` on is held.
use polygon.Base.{
  ℕ, ◌+◌, ◌-◌, ◌≤◌, ◌<◌, ◌^◌, true, false, not, ◌&&◌, ◌≡◌, ◌∙◌, inl, inr, Result, arith, segment,
  ok, some, add64, length-segment, Bool-cases, sym,
}
use polygon.Base.Gives.{Gives, gives}
use polygon.Range.{Range, range_init}
use polygon.Range.Gaps.{in_range, in_gaps, IsGaps}
use polygon.Gaptr.{push_gaps}
use polygon.Gaptr.Push.{TakesOut, push_gaps-TakesOut}
use polygon.Rob.{Memory, Rob, rob_init, rob_push, rob_gap_new, push_loop}
use polygon.Rob.Blocks.{stored, IsBlocks}
use polygon.Rob.Fill.{HasMemory}
use polygon.Rob.Push.{Adds, push_loop-Adds}

pub record IsRob (s : ℕ → ℕ) (base : ℕ) (rob : Rob) : Type 0 where
  pub pos : 0 < rob.chunk
  pub small : rob.chunk < 2 ^ 62
  pub gaps_order : IsGaps base rob.gaps
  pub blocks_order : IsBlocks rob.chunk base 0 rob.blocks
  pub held :
      (x : ℕ)
      → base ≤ x
      → x < 2 ^ 62
      → in_gaps x rob.gaps ≡ false
      → stored rob.chunk x rob.blocks ≡ some (s x)
  pub endless : (x : ℕ) → 2 ^ 62 ≤ x → x < 2 ^ 64 - 1 → in_gaps x rob.gaps ≡ true

-- A new buffer.
rob_init-IsRob :
    (memory : Memory) (s : ℕ → ℕ) (chunk : ℕ)
    → HasMemory memory
    → 0 < chunk
    → chunk < 2 ^ 62
    → Gives (IsRob s 0) (rob_init memory chunk)
unfolding rob_init rob_gap_new in_gaps in_range range_init
rob_init-IsRob memory s chunk m h1 h2 = rw (m.gaps 0) (
    gives (record {
      pos = h1;
      small = h2;
      gaps_order = (omega arith, omega arith, omega arith, tt);
      blocks_order = tt;
      held = λ x a b c. absurd (ground arith);
      endless = λ x a b. ground arith;
    }))

-- What a push does: nothing else but taking its range out of the gaps.
pub record Pushes (s : ℕ → ℕ) (base offset len : ℕ) (rob : Rob) (r : Rob × Result (Unit {0}))
    : Type 0 where
  pub success : r.1 ≡ ok tt
  pub state : IsRob s base r.0
  pub exact :
      (x : ℕ)
      → in_gaps x r.0.gaps
        ≡ (in_gaps x rob.gaps && not (in_range x (range_init offset (offset + len))))

-- With memory at hand, a push of any piece of the stream, wherever it lies and whatever it overlaps, succeeds and
-- leaves a buffer in good order, without gaps in what has come in.
pub rob_push-Pushes :
    (memory : Memory) (s : ℕ → ℕ) (base offset len : ℕ) (rob : Rob)
    → HasMemory memory
    → IsRob s base rob
    → offset + len ≤ 2 ^ 62
    → Pushes s base offset len rob (rob_push memory rob offset (segment s offset len))
unfolding rob_push
rob_push-Pushes memory s base offset len rob m v h =
    let same : add64 offset len ≡ offset + len = omega arith in
    let q : Range = range_init offset (offset + len) in
    let whole : offset + len - offset ≡ len = omega arith in
    let a : Adds s rob.chunk base q rob.gaps rob.blocks
        (push_loop memory rob.chunk q (segment s offset len) rob.gaps rob.blocks) =
      unfold range_init in
      rw whole at (
        push_loop-Adds memory m s rob.chunk base v.pos v.small q (omega arith) (omega arith) base
          rob.gaps (omega arith) v.gaps_order rob.blocks v.blocks_order) in
    let t : TakesOut base q rob.gaps (push_gaps true q rob.gaps) =
      push_gaps-TakesOut base q rob.gaps (unfold range_init in (omega arith, omega arith))
        v.gaps_order in
    rw (length-segment s offset len, same)
      (record {
        success = a.success;
        state = record {
          pos = v.pos;
          small = v.small;
          gaps_order = rw a.left t.order;
          blocks_order = a.order;
          held = λ x lo hi out.
              let out' = sym (t.exact x) ∙ rw a.left at out in
              elim (Bool-cases (in_gaps x rob.gaps)) [
                | inl gap ↦ a.filled x gap (ground (arith, out'))
                | inr here ↦ a.kept x (v.held x lo hi here)
              ];
          endless = λ x lo hi.
              rw a.left (t.exact x ∙ unfold in_range range_init in ground (arith, v.endless x));
        };
        exact = λ x. rw a.left (t.exact x);
      })
