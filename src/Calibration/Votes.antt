-- ===== src/Calibration/Votes.antt =====
-- PYTHON/IrisUtils/sample_offset_cal.py: the index of the pilot at each board, the vote over the pilots
-- and the calibration by it. An index that was not found (NaN) is none, and the table of indices is
-- given by its columns, one for each board.
use houdini_lab.Common.Options.{◌>>=◌}
use houdini_lab.Common.{
  Option, ℕ, List, some, false, ◌∷◌, none, Bool, if◌then◌else◌, suc, ◌==◌, ltb, [], zero, replicate,
  ◌-◌, ◌||◌,
}
use houdini_lab.Calibration.Peaks.{find_lts}

-- Peak 0 is false in Python.
unfoldable pub nonzero : Option ℕ → Option ℕ
nonzero none = none
nonzero (some zero) = none
nonzero (some (suc n)) = some (suc n)

-- One cell of find_corr_idx.
unfoldable pub corr_idx : ℕ → List ℕ → Option ℕ
unfolding find_lts
corr_idx len corr = nonzero (find_lts false 8 len corr)

-- How often Counter counts a value: a NaN equals no other.
unfoldable pub occurrences : Option ℕ → List (Option ℕ) → ℕ
occurrences none ys = 1
occurrences (some x) [] = 0
occurrences (some x) (none ∷ ys) = occurrences (some x) ys
occurrences (some x) (some y ∷ ys) =
    let rest = occurrences (some x) ys in if x == y then suc rest else rest

pub record Vote : Type 0 where
  pub most_freq : Option ℕ
  pub num_occurr : ℕ

abbrev pub vote : List (Option ℕ) → Option ℕ → Vote
vote all x = record { most_freq = x; num_occurr = occurrences x all }

-- The first of the most frequent values, after the one that led so far.
unfoldable pub leader : List (Option ℕ) → Vote → List (Option ℕ) → Vote
leader all best [] = best
leader all best (x ∷ xs) =
    leader all (if ltb best.num_occurr (occurrences x all) then vote all x else best) xs

-- No pilot at all is an IndexError.
unfoldable pub most_common : List (Option ℕ) → Option Vote
most_common [] = none
most_common (x ∷ xs) = some (leader (x ∷ xs) (vote (x ∷ xs) x) xs)

unfoldable pub votes : List (List (Option ℕ)) → Option (List Vote)
votes [] = some []
votes (c ∷ cs) = do v ← most_common c; vs ← votes cs; some (v ∷ vs)

-- The threshold: 80 of the 100 pilots.
unfoldable pub any_below : List Vote → Bool
any_below [] = false
any_below (v ∷ vs) = ltb v.num_occurr 80 || any_below vs

-- The writes to the register of the triggers.
pub data Trigger : Type 0 where
  incr_time : Trigger
  decr_time : Trigger

-- The writes for `ioffset = reference - index`.
unfoldable pub writes_of : ℕ → ℕ → List Trigger
writes_of reference index =
    if ltb index reference
    then replicate (reference - index) incr_time
    else replicate (index - reference) decr_time

-- `int()` of a NaN raises.
unfoldable pub adjust : Option ℕ → Option ℕ → Option (List Trigger)
adjust (some reference) (some index) = some (writes_of reference index)
adjust (some reference) none = none
adjust none index = none

unfoldable pub calibrate_rest : Option ℕ → List Vote → Option (List (List Trigger))
calibrate_rest reference [] = some []
calibrate_rest reference (v ∷ vs) = do
  ws ← adjust reference v.most_freq
  rest ← calibrate_rest reference vs
  some (ws ∷ rest)

-- The writes to each board but the first, which is the reference.
unfoldable pub calibrate : List Vote → Option (List (List Trigger))
calibrate [] = none
calibrate (v ∷ vs) = calibrate_rest v.most_freq vs

pub data Outcome : Type 0 where
  failed : List Vote → Outcome
  calibrated : List Vote → List (List Trigger) → Outcome

unfoldable pub judge : List Vote → Option Outcome
judge vs =
    let done = do ws ← calibrate vs; some (calibrated vs ws)
    in if any_below vs then some (failed vs) else done

-- What txrx_app does with the indices of the first 100 pilots.
unfoldable pub calibration : List (List (Option ℕ)) → Option Outcome
calibration cs = do vs ← votes cs; judge vs
