-- ===== src/Agc/Gains.antt =====
-- PYTHON/IrisUtils/agc_fsm_iris.py: the callbacks of AutomaticGainControl.
use houdini_lab.Common.{
  ℕ, zero, suc, ◌+◌, ◌/◌, Bool, true, false, Option, none, some, [], ◌∷◌, ◌++◌, ltb, leb,
  if◌then◌else◌, get_elem?,
}
use houdini_lab.Common.Int.{ℤ, pos, negsuc, ◌+ℤ◌, ◌-ℤ◌, ltb_ℤ, sub_ℕ, abs, pos_part}
use houdini_lab.Agc.State.{
  State, Gains, Agc, GainCall, db, target_rssi, max_gain, min_gain, max_num_sat_adjust,
  max_num_fine_adjust, gain_table, rows_of, only_row,
}
use houdini_lab.Agc.State

-- The exceptions that can be raised: of the table or the array of samples, of the local variable
-- `rssiDiff`, and of the machine.
pub data Error : Type 0 where
  index_error unbound_local_error machine_error : Error

-- A call that ended, or raised; what it wrote stays written.
pub data Outcome (A : Type 0) : Type 0 where
  ok : A → Agc → Outcome A
  raised : Error → Agc → Outcome A

abbrev pub M : Type 0 → Type 0
M A = Agc → Outcome A

abbrev pub Callback : Type 0
Callback = M (Unit {0})

infixl 5 ◌>>=◌ ◌>>◌
abbrev pub ◌>>=◌ : {A B : Type 0} → M A → (A → M B) → M B
◌>>=◌ m f s = elim (m s) [ ok a s' ↦ f a s' | raised e s' ↦ raised e s' ]

abbrev pub ◌>>◌ : {A B : Type 0} → M A → M B → M B
m >> k = m >>= λ _. k

abbrev pub pure : {A : Type 0} → A → M A
pure a s = ok a s

abbrev pub modify : (Agc → Agc) → Callback
modify f s = ok tt (f s)

abbrev pub or_raise : {A : Type 0} → Option A → Error → M A
or_raise none e s = raised e s
or_raise (some a) e s = ok a s

-- `int` of a float, towards 0.
abbrev pub trunc : ℤ → ℤ
trunc (pos n) = pos (n / db)
trunc (negsuc n) = sub_ℕ 0 (suc n / db)

-- `maxGain - cumulativeGainAdjust`, held in the range of the table.
unfoldable pub adjusted_gain : ℤ → ℤ
adjusted_gain cumulative =
    let wanted = max_gain -ℤ cumulative in
    let raised_to_min = if ltb_ℤ wanted min_gain then min_gain else wanted in
    if ltb_ℤ max_gain raised_to_min then max_gain else raised_to_min

-- The end of `setSatGain` and of `fineTuning`: the row of the table goes to the three amplifiers.
unfoldable pub apply_gain : Callback
apply_gain s =
    elim (only_row (rows_of (pos_part (adjusted_gain s.cumulative_gain_adjust)) gain_table)) [
      | none ↦ raised index_error s
      | some g ↦ ok tt (record s {
        gain = g;
        gain_calls =
            s.gain_calls
            ++ ((State.Stage.lna, g.lna)
                ∷ (State.Stage.tia, g.tia)
                ∷ (State.Stage.pga, g.pga)
                ∷ []);
      })
    ]

abbrev pub sat_drop : ℕ → ℤ → ℤ
sat_drop zero total = total +ℤ pos 20
sat_drop (suc zero) total = total +ℤ pos 10
sat_drop (suc (suc zero)) total = total +ℤ pos 10
sat_drop (suc (suc (suc _))) total = total

unfoldable pub set_sat_gain : Callback
set_sat_gain = do
  modify (λ s. record s {
    gain = s.get_gain;
    cumulative_gain_adjust = sat_drop s.gain_adjust_stage s.cumulative_gain_adjust;
  })
  apply_gain

-- `rssiDiff` has a value only below 0 dB.
abbrev pub rssi_diff : ℤ → Option ℤ
rssi_diff curr = if ltb_ℤ curr (pos 0) then some (pos target_rssi -ℤ pos (abs curr)) else none

unfoldable pub fine_tuning : Callback
fine_tuning s =
    (do
      curr ← or_raise (get_elem? s.rssi s.current_sample) index_error
      diff ← or_raise (rssi_diff curr) unbound_local_error
      modify (λ t. record t { cumulative_gain_adjust = t.cumulative_gain_adjust +ℤ trunc diff })
      apply_gain)
      s

abbrev pub enable_agc : Agc → Agc
enable_agc s = record s { enable_agc_flag = true }

abbrev pub disable_agc : Agc → Agc
disable_agc s = record s { enable_agc_flag = false }

abbrev pub is_agc_enabled : Agc → Bool
is_agc_enabled s = s.enable_agc_flag

abbrev pub fine_tuning_counter : Callback
fine_tuning_counter = modify (λ s. record s { fine_adjust_count = s.fine_adjust_count + 1 })

abbrev pub is_fine_tuning_done : Agc → Bool
is_fine_tuning_done s = leb max_num_fine_adjust s.fine_adjust_count

abbrev pub is_fine_tuning_not_done : Agc → Bool
is_fine_tuning_not_done s = ltb s.fine_adjust_count max_num_fine_adjust

abbrev pub is_saturation_detected : Agc → Bool
is_saturation_detected s = s.sat_detected_flag

abbrev pub set_final_stage : Callback
set_final_stage = modify (λ s. record s { gain_adjust_stage = max_num_sat_adjust })

abbrev pub reset_saturation : Callback
reset_saturation = modify (λ s. record s { sat_detected_flag = false })

abbrev pub is_sat_det_good : Agc → Bool
is_sat_det_good s = s.sat_det_good_flag

abbrev pub stage_counter : Callback
stage_counter = modify (λ s. record s { gain_adjust_stage = s.gain_adjust_stage + 1 })

abbrev pub is_final_stage : Agc → Bool
is_final_stage s = leb max_num_sat_adjust s.gain_adjust_stage

abbrev pub is_not_final_stage : Agc → Bool
is_not_final_stage s = ltb s.gain_adjust_stage max_num_sat_adjust

unfoldable pub full_reset : Callback
full_reset = modify (λ s. disable_agc (record s {
  current_sample = 0;
  enable_agc_flag = false;
  num_sat_samps = 0;
  gain_adjust_stage = 0;
  sat_det_good_flag = false;
  sat_detected_flag = false;
  wait_count = 0;
  fine_adjust_count = 0;
  cumulative_gain_adjust = pos 0;
  rssi = s.uninitialised;
}))

-- It only logs.
abbrev pub print_state : Callback
print_state = modify (λ s. s)
