-- ===== src/Range/Gaps.antt =====
-- What a list of ranges stands for, and the order that ngtcp2_gaptr.c and ngtcp2_idtr.c keep.
use polygon.Base.{
  ℕ, ◌≤◌, ◌<◌, ◌^◌, Bool, false, ◌&&◌, ◌||◌, List, [], ◌∷◌, ltb, leb, ◌≡◌, refl, arith,
}
use polygon.Range.{Range}

unfoldable pub in_range : ℕ → Range → Bool
in_range x r = leb r.begin x && ltb x r.end

unfoldable pub in_gaps : ℕ → List Range → Bool
unfolding in_range
in_gaps x [] = false
in_gaps x (g ∷ gaps) = in_range x g || in_gaps x gaps

-- Gaps in ascending order from `low` on, none of them empty.
abbrev pub IsGaps : ℕ → List Range → Type 0
IsGaps low [] = Unit
IsGaps low (g ∷ gaps) = (low ≤ g.begin) × (g.begin < g.end) × (g.end < 2 ^ 64) × IsGaps g.end gaps

-- Nothing below the lower bound lies in a gap.
pub in_gaps-below :
    (low x : ℕ) (gaps : List Range) → IsGaps low gaps → x < low → in_gaps x gaps ≡ false
unfolding in_gaps
in_gaps-below low x [] h lt = refl
in_gaps-below low x (g ∷ gaps) (a, b, c, hg) lt =
    ground (arith, in_gaps-below g.end x gaps hg (omega arith))

pub IsGaps-lower :
    (low low' : ℕ) (gaps : List Range) → low' ≤ low → IsGaps low gaps → IsGaps low' gaps
IsGaps-lower low low' [] le h = tt
IsGaps-lower low low' (g ∷ gaps) le (a, b, c, d) = (omega arith, b, c, d)

-- Gaps in ascending order from `low` on, of which some may be empty.
abbrev pub IsAscending : ℕ → List Range → Type 0
IsAscending low [] = Unit
IsAscending low (g ∷ gaps) =
    (low ≤ g.begin) × (g.begin ≤ g.end) × (g.end < 2 ^ 64) × IsAscending g.end gaps

pub in_gaps-ascending :
    (low x : ℕ) (gaps : List Range) → IsAscending low gaps → x < low → in_gaps x gaps ≡ false
unfolding in_gaps
in_gaps-ascending low x [] h lt = refl
in_gaps-ascending low x (g ∷ gaps) (a, b, c, hg) lt =
    ground (arith, in_gaps-ascending g.end x gaps hg (omega arith))

pub IsAscending-lower :
    (low low' : ℕ) (gaps : List Range) → low' ≤ low → IsAscending low gaps → IsAscending low' gaps
IsAscending-lower low low' [] le h = tt
IsAscending-lower low low' (g ∷ gaps) le (a, b, c, d) = (omega arith, b, c, d)
