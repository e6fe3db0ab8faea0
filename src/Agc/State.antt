-- ===== src/Agc/State.antt =====
-- PYTHON/IrisUtils/agc_fsm_iris.py: the attributes of AutomaticGainControl, and the gain table
-- that it loads (PYTHON/IrisUtils/data_in/gainTable_07-20-18.csv).
use houdini_lab.Common.{ℕ, Bool, Option, none, some, List, [], ◌∷◌, ◌==◌, if◌then◌else◌}
use houdini_lab.Common.Int.{ℤ, pos, negsuc}

-- The states of the machine.
pub data State : Type 0 where
  idle meas_pwr_wait sat_det wait : State

-- The gains of the three amplifiers.
pub record Gains : Type 0 where
  pub lna : ℤ
  pub tia : ℤ
  pub pga : ℤ

-- What a gain is set for: an amplifier, or the whole chain.
pub data Stage : Type 0 where
  lna tia pga chain : Stage

-- A call of `sdr.setGain`.
abbrev pub GainCall : Type 0
GainCall = Stage × ℤ

-- Received powers are in thousandths of a dB. `gain_calls` lists the calls of `setGain`, the
-- first first; `get_gain` is what `sdr.getGain` answers, and `uninitialised` the content of the
-- next `np.empty`, which are not the program's.
pub record Agc : Type 0 where
  pub state : State
  pub current_sample : ℕ
  pub enable_agc_flag : Bool
  pub num_sat_samps : ℕ
  pub gain_adjust_stage : ℕ
  pub sat_det_good_flag : Bool
  pub sat_detected_flag : Bool
  pub wait_count : ℕ
  pub fine_adjust_count : ℕ
  pub cumulative_gain_adjust : ℤ
  pub gain : Gains
  pub rssi : List ℤ
  pub gain_calls : List GainCall
  pub get_gain : Gains
  pub uninitialised : List ℤ

-- dB, in thousandths
abbrev pub db : ℕ
db = 1000

-- The magnitude of targetRSSI, -15 dB.
abbrev pub target_rssi : ℕ
target_rssi = 15000

-- rssiSatThresh, -6 dB.
abbrev pub rssi_sat_thresh : ℤ
rssi_sat_thresh = negsuc 5999

abbrev pub max_gain : ℤ
max_gain = pos 64

abbrev pub min_gain : ℤ
min_gain = pos 0

abbrev pub num_samp_thresh : ℕ
num_samp_thresh = 16

abbrev pub num_samp_above_thresh : ℕ
num_samp_above_thresh = 3

abbrev pub max_num_sat_adjust : ℕ
max_num_sat_adjust = 3

abbrev pub max_num_fine_adjust : ℕ
max_num_fine_adjust = 3

-- A row of the table: its total gain, and the columns LNA, TIA and PGA.
abbrev row : ℕ → ℕ → ℕ → ℤ → ℕ × Gains
row total l t p = (total, record { lna = pos l; tia = pos t; pga = p })

unfoldable pub gain_table : List (ℕ × Gains)
gain_table =
    row 0 0 0 (negsuc 11)
    ∷ row 1 0 0 (negsuc 10)
    ∷ row 2 0 0 (negsuc 9)
    ∷ row 3 0 0 (negsuc 8)
    ∷ row 4 3 0 (negsuc 10)
    ∷ row 5 3 0 (negsuc 9)
    ∷ row 6 6 0 (negsuc 11)
    ∷ row 7 6 0 (negsuc 10)
    ∷ row 8 6 0 (negsuc 9)
    ∷ row 9 9 0 (negsuc 11)
    ∷ row 10 9 0 (negsuc 10)
    ∷ row 11 9 0 (negsuc 9)
    ∷ row 12 12 0 (negsuc 11)
    ∷ row 13 9 0 (negsuc 7)
    ∷ row 14 9 0 (negsuc 6)
    ∷ row 15 12 0 (negsuc 8)
    ∷ row 16 12 0 (negsuc 7)
    ∷ row 17 15 0 (negsuc 9)
    ∷ row 18 15 0 (negsuc 8)
    ∷ row 19 15 0 (negsuc 7)
    ∷ row 20 18 0 (negsuc 9)
    ∷ row 21 18 0 (negsuc 8)
    ∷ row 22 18 0 (negsuc 7)
    ∷ row 23 21 0 (negsuc 9)
    ∷ row 24 21 0 (negsuc 8)
    ∷ row 25 25 0 (negsuc 11)
    ∷ row 26 26 0 (negsuc 11)
    ∷ row 27 25 0 (negsuc 9)
    ∷ row 28 26 0 (negsuc 9)
    ∷ row 29 29 0 (negsuc 11)
    ∷ row 30 29 0 (negsuc 10)
    ∷ row 31 30 0 (negsuc 10)
    ∷ row 32 30 0 (negsuc 9)
    ∷ row 33 30 0 (negsuc 8)
    ∷ row 34 30 0 (negsuc 7)
    ∷ row 35 30 0 (negsuc 6)
    ∷ row 36 30 0 (negsuc 5)
    ∷ row 37 29 0 (negsuc 3)
    ∷ row 38 30 0 (negsuc 3)
    ∷ row 39 30 0 (negsuc 2)
    ∷ row 40 30 0 (negsuc 1)
    ∷ row 41 30 0 (negsuc 0)
    ∷ row 42 30 0 (pos 0)
    ∷ row 43 30 0 (pos 1)
    ∷ row 44 30 0 (pos 2)
    ∷ row 45 30 0 (pos 3)
    ∷ row 46 30 0 (pos 4)
    ∷ row 47 29 0 (pos 6)
    ∷ row 48 30 0 (pos 6)
    ∷ row 49 30 0 (pos 7)
    ∷ row 50 30 0 (pos 8)
    ∷ row 51 30 0 (pos 9)
    ∷ row 52 30 0 (pos 10)
    ∷ row 53 30 0 (pos 11)
    ∷ row 54 30 0 (pos 12)
    ∷ row 55 29 0 (pos 14)
    ∷ row 56 30 0 (pos 14)
    ∷ row 57 29 0 (pos 16)
    ∷ row 58 29 0 (pos 17)
    ∷ row 59 30 0 (pos 17)
    ∷ row 60 30 0 (pos 18)
    ∷ row 61 30 0 (pos 19)
    ∷ row 62 30 9 (pos 18)
    ∷ row 63 30 9 (pos 19)
    ∷ row 64 30 12 (pos 19)
    ∷ []

-- The rows whose first column is the gain.
unfoldable pub rows_of : ℕ → List (ℕ × Gains) → List Gains
rows_of g [] = []
rows_of g ((total, gains) ∷ rows) =
    let rest = rows_of g rows in if total == g then gains ∷ rest else rest

-- The selection by a mask and three columns is three numbers if one row fits, and an IndexError
-- if none fits or two.
abbrev pub only_row : List Gains → Option Gains
only_row [] = none
only_row (gains ∷ []) = some gains
only_row (_ ∷ _ ∷ _) = none
