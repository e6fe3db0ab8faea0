-- ===== src/Calibration/Peaks.antt =====
-- PYTHON/IrisUtils/find_lts.py: the peaks of a correlation. The correlation (numpy) is a list of
-- numbers in some unit, and the threshold is in tenths of its maximum.
use houdini_lab.Common.{
  ℕ, suc, List, Bool, ◌∷◌, ◌*◌, false, Option, if◌then◌else◌, take, ◌==◌, ◌++◌, not, none, ltb, ◌+◌,
  [], ◌||◌, get_elem?, length, some,
}

unfoldable pub maximum : List ℕ → ℕ
maximum [] = 0
maximum (x ∷ xs) = let rest = maximum xs in if ltb rest x then x else rest

-- `np.where(corr > thresh * np.max(corr))`, from index i on.
unfoldable pub above : ℕ → ℕ → List ℕ → List ℕ
above level i [] = []
above level i (x ∷ xs) =
    let rest = above level (suc i) xs in if ltb level (10 * x) then i ∷ rest else rest

-- The peaks within the first `len` values.
unfoldable pub peaks : ℕ → ℕ → List ℕ → List ℕ
unfolding above
peaks thresh len corr = above (thresh * maximum corr) 0 (take len corr)

-- Whether some peak stands exactly `spacing` before y.
unfoldable pub has_first : ℕ → List ℕ → ℕ → Bool
has_first spacing [] y = false
has_first spacing (x ∷ xs) y = (y == x + spacing) || has_first spacing xs y

-- The rows of `np.where((y_vec - x_vec) == peak_spacing)`, from row i on: one for each column at which
-- the difference is met.
unfoldable pub row_hits : ℕ → ℕ → ℕ → List ℕ → List ℕ
row_hits spacing i y [] = []
row_hits spacing i y (x ∷ xs) =
    let rest = row_hits spacing i y xs in if y == x + spacing then i ∷ rest else rest

unfoldable pub second_peak_idx : ℕ → List ℕ → ℕ → List ℕ → List ℕ
second_peak_idx spacing pks i [] = []
second_peak_idx spacing pks i (y ∷ ys) =
    row_hits spacing i y pks ++ second_peak_idx spacing pks (suc i) ys

-- `idx.any()`: whether an index other than 0 is there.
unfoldable pub any_index : List ℕ → Bool
any_index [] = false
any_index (i ∷ is) = not (i == 0) || any_index is

-- The first second peak; none is the empty list.
unfoldable pub best_of : List ℕ → List ℕ → Option ℕ
best_of pks [] = none
best_of pks (i ∷ is) = if any_index (i ∷ is) then get_elem? pks i else none

unfoldable pub best_pk : ℕ → List ℕ → Option ℕ
best_pk spacing pks = best_of pks (second_peak_idx spacing pks 0 pks)

-- The spacing is 64 samples, or 80 where the sequence is given.
unfoldable pub find_lts : Bool → ℕ → ℕ → List ℕ → Option ℕ
find_lts provided thresh len corr = best_pk (if provided then 80 else 64) (peaks thresh len corr)

-- `np.argmax`: the first index of the maximum.
unfoldable pub argmax_from : ℕ → ℕ → List ℕ → ℕ
argmax_from top i [] = i
argmax_from top i (x ∷ xs) = let rest = argmax_from top (suc i) xs in if x == top then i else rest

-- find_zc_pilot: the peak itself, unless no peak has an index other than 0.
unfoldable pub find_zc_pilot : ℕ → List ℕ → Option ℕ
find_zc_pilot thresh corr =
    if any_index (peaks thresh (length corr) corr)
    then some (argmax_from (maximum corr) 0 corr)
    else none
