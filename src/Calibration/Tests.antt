-- ===== src/Calibration/Tests.antt =====
-- Examples of the LTS search and the calibration.
use houdini_lab.Calibration.Aligned.{Judged, calibration-Judged}
use houdini_lab.Calibration.Peaks.{
  peaks, maximum, above, has_first, find_lts, find_zc_pilot, best_pk, any_index, best_of,
  second_peak_idx, row_hits,
}
use houdini_lab.Calibration.Votes.{
  Vote, votes, judge, calibration, most_common, corr_idx, leader, occurrences, any_below, calibrate,
  calibrate_rest, nonzero, adjust, writes_of, calibrated, decr_time, incr_time,
}
use houdini_lab.Common.{
  List, ℕ, ◌∷◌, Option, replicate, none, [], ◌++◌, some, ◌≡◌, true, arith, refl,
}
use houdini_lab.Calibration.Pairs.{find_lts-first_pair, first_pair}

abbrev two_peaks : List ℕ
two_peaks = 1 ∷ 10 ∷ replicate 79 2 ++ (9 ∷ 0 ∷ [])

find_lts-first_pair_example : find_lts true 8 90 two_peaks ≡ some 81
unfolding first_pair peaks maximum above has_first
find_lts-first_pair_example = find_lts-first_pair true 8 90 two_peaks

-- Two boards: the second has the pilot three samples later, and both miss it at times.
abbrev board : ℕ → List (Option ℕ)
board n = none ∷ replicate 85 (some n) ++ (none ∷ some 9 ∷ [])

calibration-Judged_example :
    (v : Vote) × (vs : List Vote) × (votes (board 300 ∷ board 303 ∷ []) ≡ some (v ∷ vs))
    × Judged v vs (calibration (board 300 ∷ board 303 ∷ []))
calibration-Judged_example =
    calibration-Judged (board 300) (board 303 ∷ []) (ground arith, (ground arith, tt))

-- The sign of the offset picks the write, and a board without an index raises.
calibration_lem :
    calibration (board 300 ∷ board 303 ∷ board 298 ∷ [])
    ≡ some (
        calibrated
          ((record { most_freq = some 300; num_occurr = 85 })
            ∷ (record { most_freq = some 303; num_occurr = 85 })
            ∷ (record { most_freq = some 298; num_occurr = 85 })
            ∷ [])
          ((decr_time ∷ decr_time ∷ decr_time ∷ []) ∷ (incr_time ∷ incr_time ∷ []) ∷ []))
unfolding calibration votes most_common leader occurrences judge any_below calibrate calibrate_rest
    adjust writes_of
calibration_lem = refl

corr_idx_lem : corr_idx 90 (10 ∷ replicate 63 0 ++ (10 ∷ [])) ≡ some 64
unfolding corr_idx find_lts best_pk best_of second_peak_idx row_hits any_index peaks above maximum
    nonzero
corr_idx_lem = refl

find_zc_pilot_lem : find_zc_pilot 8 (10 ∷ 0 ∷ 0 ∷ []) ≡ none
unfolding find_zc_pilot any_index peaks above maximum
find_zc_pilot_lem = refl
