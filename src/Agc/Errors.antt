-- ===== src/Agc/Errors.antt =====
-- When a sample raises an exception: PYTHON/IrisUtils/agc_fsm_iris.py, fineTuning.
use houdini_lab.Common.{
  ap, ℕ, ◌<◌, ◌≡◌, refl, ◌∙◌, Bool, true, false, some, arith, ltb, ◌≢◌, get_elem?, inl, inr,
  Bool-cases,
}
use houdini_lab.Common.Int.{pos, negsuc}
use houdini_lab.Agc.State.{State, idle, meas_pwr_wait, sat_det, wait, Agc}
use houdini_lab.Agc.Gains.{Outcome, ok, raised, unbound_local_error, full_reset}
use houdini_lab.Agc.Machine.{Transitions, new_sample}
use houdini_lab.Agc.Step.{
  step_in, step_in-fine, step_in-fine_done, step_in-saturated, step, new_sample-step,
}
use houdini_lab.Agc.Effects.{saturation_step-eq, tuning_step-eq, tuning_step-saturated}
use houdini_lab.Agc.Invariant.{Inv}

-- If fine tuning reads a power of 0 dB or more, the sample raises an UnboundLocalError: `rssiDiff`
-- has no value. The machine stays in its state and only its stage is the final one.
pub new_sample-unbound :
    (lib : Transitions) (s : Agc) (n : ℕ)
    → s.state ≡ meas_pwr_wait
    → s.fine_adjust_count < 3
    → get_elem? s.rssi s.current_sample ≡ some (pos n)
    → new_sample lib s ≡ raised unbound_local_error (record s { gain_adjust_stage = 3 })
unfolding step
new_sample-unbound lib s n here more reading =
    new_sample-step lib s
    ∙ ap (λ st. step_in st s) here
    ∙ step_in-fine s (ground arith)
    ∙ tuning_step-saturated s n reading

-- The call ended without an exception.
abbrev pub Returns : Outcome Bool → Type 0
Returns o = (b : Bool) × (t : Agc) × (o ≡ ok b t)

finish_step-Returns :
    (s : Agc) → ltb s.fine_adjust_count 3 ≡ false → Returns (step_in meas_pwr_wait s)
unfolding full_reset
finish_step-Returns s done = (true, _, step_in-fine_done s done ∙ refl)

step_in-Returns :
    (st : State) (s : Agc) (n : ℕ)
    → st ≢ wait
    → get_elem? s.rssi s.current_sample ≡ some (negsuc n)
    → Returns (step_in st s)
step_in-Returns idle s n w h = elim (Bool-cases s.enable_agc_flag) [
  | inl e ↦ (true, record s { state = sat_det }, rw e)
  | inr e ↦ (false, s, rw e)
]
step_in-Returns sat_det s n w h = elim (Bool-cases s.sat_detected_flag) [
  | inl e ↦ let (g, k, r) = saturation_step-eq s in (true, _, step_in-saturated s e ∙ k)
  | inr e ↦ elim (Bool-cases s.sat_det_good_flag) [
    | inl good ↦ (true, record s { state = meas_pwr_wait; sat_detected_flag = false }, rw (e, good))
    | inr bad ↦ (false, s, rw (e, bad))
  ]
]
step_in-Returns meas_pwr_wait s n w h = elim (Bool-cases (ltb s.fine_adjust_count 3)) [
  | inl more ↦ let (g, k, r) = tuning_step-eq s n h in (true, _, step_in-fine s more ∙ k)
  | inr done ↦ finish_step-Returns s done
]
step_in-Returns wait s n w h = absurd (w refl)

-- On a reading below 0 dB no sample raises.
pub new_sample-Returns :
    (lib : Transitions) (s : Agc) (n : ℕ)
    → Inv s
    → get_elem? s.rssi s.current_sample ≡ some (negsuc n)
    → Returns (new_sample lib s)
unfolding step
new_sample-Returns lib s n i h =
    rw (new_sample-step lib s) (step_in-Returns s.state s n i.not_waiting h)
