-- ===== src/Agc/Step.antt =====
-- What a sample does, state by state: the rules of PYTHON/IrisUtils/agc_fsm_iris.py, flattened.
use houdini_lab.Common.{
  ℕ, ◌+◌, ◌≡◌, refl, ◌∙◌, Bool, true, false, arith, ltb, leb, if◌then◌else◌, inl, inr, Bool-cases,
}
use houdini_lab.Agc.State.{
  State, idle, meas_pwr_wait, sat_det, wait, Agc, max_num_sat_adjust, max_num_fine_adjust,
}
use houdini_lab.Agc.Gains.{
  machine_error, Outcome, ok, raised, M, Callback, ◌>>=◌, ◌>>◌, pure, modify, set_sat_gain,
  fine_tuning, full_reset,
}
use houdini_lab.Agc.Machine.{
  Transitions, rule_1, rule_2, rule_3, rule_4, rule_5, rule_6, rule_7, gain_done_rules, gain_done,
  wait_timeout, new_sample_rules, new_sample, run_rule,
}

-- Where the wait ends.
abbrev pub after_wait : ℕ → State
after_wait stage = if ltb stage max_num_sat_adjust then sat_det else meas_pwr_wait

abbrev pub next_stage : Agc → Agc
next_stage s = record s {
  gain_adjust_stage = s.gain_adjust_stage + 1;
  state = after_wait (s.gain_adjust_stage + 1);
}

-- A gain reduction for saturation.
abbrev pub saturation_step : M Bool
saturation_step s =
    (do set_sat_gain; modify next_stage; pure true) (record s { sat_detected_flag = false })

abbrev pub tuned : Agc → Agc
tuned s = record s {
  fine_adjust_count = s.fine_adjust_count + 1;
  state = after_wait s.gain_adjust_stage;
}

-- A fine adjustment.
abbrev pub tuning_step : M Bool
tuning_step s =
    (do fine_tuning; modify tuned; pure true) (record s { gain_adjust_stage = max_num_sat_adjust })

abbrev pub finish_step : M Bool
finish_step s = (do full_reset; pure true) (record s { state = idle })

abbrev pub step_in : State → M Bool
step_in idle s = if s.enable_agc_flag then ok true (record s { state = sat_det }) else ok false s
step_in sat_det s =
    if s.sat_detected_flag
    then saturation_step s
    else if s.sat_det_good_flag
    then ok true (record s { state = meas_pwr_wait; sat_detected_flag = false })
    else ok false s
step_in meas_pwr_wait s =
    if ltb s.fine_adjust_count max_num_fine_adjust then tuning_step s else finish_step s
step_in wait s = raised machine_error s

unfoldable pub step : M Bool
step s = step_in s.state s

callback_then :
    (m : Callback) (k k' : M Bool) (s : Agc)
    → ((t : Agc) → k t ≡ k' t)
    → ((m >> pure tt) >> k) s ≡ (m >> k') s
callback_then m k k' s h =
    elim (m s)
      as (λ o.
        ◌≡◌ {A = Outcome Bool}
          (elim (elim o as (λ _. Outcome (Unit {0})) [ ok a t ↦ ok tt t | raised e t ↦ raised e t ])
            as (λ _. Outcome Bool) [ ok a t ↦ k t | raised e t ↦ raised e t ])
          (elim o as (λ _. Outcome Bool) [ ok a t ↦ k' t | raised e t ↦ raised e t ])) [
            | ok a t ↦ h t
            | raised e t ↦ refl
          ]

late_leb : (n : ℕ) → ltb n 3 ≡ false → leb 3 n ≡ true
late_leb n h = ground arith

module _ (lib : Transitions) where
  open lib use {fire, fire_enabled, fire_disabled, fire_invalid}

  pub gain_done-eq :
      (s : Agc)
      → gain_done lib (record s { state = wait })
        ≡ ok true (record s { state = after_wait s.gain_adjust_stage })
  unfolding gain_done
  gain_done-eq s = elim (Bool-cases (ltb s.gain_adjust_stage 3)) [
    | inl early ↦
        fire_enabled gain_done_rules (record s { state = wait }) rule_4 (rw early) ∙ rw early
    | inr late ↦
        fire_enabled gain_done_rules (record s { state = wait }) rule_5 (rw (late, late_leb _ late))
        ∙ rw late
  ]

  wait_timeout-eq :
      (s : Agc)
      → wait_timeout lib (record s { state = wait })
        ≡ ok tt (record s { state = after_wait s.gain_adjust_stage })
  unfolding wait_timeout
  wait_timeout-eq s = rw (gain_done-eq s, ◌>>◌, ◌>>=◌)

  idle-step :
      (s : Agc)
      → new_sample lib (record s { state = idle }) ≡ step_in idle (record s { state = idle })
  unfolding new_sample
  idle-step s = elim (Bool-cases s.enable_agc_flag) [
    | inl e ↦ fire_enabled (new_sample_rules lib) (record s { state = idle }) rule_1 (rw e) ∙ rw e
    | inr e ↦ fire_disabled (new_sample_rules lib) (record s { state = idle }) (rw e) refl ∙ rw e
  ]

  saturated-step :
      (s : Agc)
      → run_rule (rule_2 lib) (record s { state = sat_det })
        ≡ saturation_step (record s { state = sat_det })
  saturated-step s =
      callback_then set_sat_gain _ (modify next_stage >> pure true)
        (record s { state = sat_det; sat_detected_flag = false })
        (λ t.
          rw (
            wait_timeout-eq (record t { gain_adjust_stage = t.gain_adjust_stage + 1 }),
            ◌>>◌,
            ◌>>=◌,
          ))

  tuning-step :
      (s : Agc)
      → run_rule (rule_6 lib) (record s { state = meas_pwr_wait })
        ≡ tuning_step (record s { state = meas_pwr_wait })
  tuning-step s =
      callback_then fine_tuning _ (modify tuned >> pure true)
        (record s { state = meas_pwr_wait; gain_adjust_stage = max_num_sat_adjust })
        (λ t.
          rw (
            wait_timeout-eq (record t { fine_adjust_count = t.fine_adjust_count + 1 }),
            ◌>>◌,
            ◌>>=◌,
          ))

  sat_det-step :
      (s : Agc)
      → new_sample lib (record s { state = sat_det })
        ≡ step_in sat_det (record s { state = sat_det })
  unfolding new_sample
  sat_det-step s = elim (Bool-cases s.sat_detected_flag) [
    | inl e ↦
        fire_enabled (new_sample_rules lib) (record s { state = sat_det }) (rule_2 lib) (rw e)
        ∙ saturated-step s
        ∙ rw e
    | inr e ↦ elim (Bool-cases s.sat_det_good_flag) [
      | inl good ↦
          fire_enabled (new_sample_rules lib) (record s { state = sat_det }) rule_3 (rw (e, good))
          ∙ rw (e, good)
      | inr bad ↦
          fire_disabled (new_sample_rules lib) (record s { state = sat_det }) (rw (e, bad)) refl
          ∙ rw (e, bad)
    ]
  ]

  meas_pwr_wait-step :
      (s : Agc)
      → new_sample lib (record s { state = meas_pwr_wait })
        ≡ step_in meas_pwr_wait (record s { state = meas_pwr_wait })
  unfolding new_sample full_reset
  meas_pwr_wait-step s = elim (Bool-cases (ltb s.fine_adjust_count 3)) [
    | inl more ↦
        fire_enabled (new_sample_rules lib) (record s { state = meas_pwr_wait }) (rule_6 lib)
          (rw more)
        ∙ tuning-step s
        ∙ rw more
    | inr done ↦
        fire_enabled (new_sample_rules lib) (record s { state = meas_pwr_wait }) rule_7
          (rw (done, late_leb _ done))
        ∙ rw done
  ]

  wait-step :
      (s : Agc)
      → new_sample lib (record s { state = wait })
        ≡ raised machine_error (record s { state = wait })
  unfolding new_sample
  wait-step s = fire_invalid (new_sample_rules lib) (record s { state = wait }) refl

  new_sample-in :
      (st : State) (s : Agc)
      → new_sample lib (record s { state = st }) ≡ step_in st (record s { state = st })
  new_sample-in idle s = idle-step s
  new_sample-in meas_pwr_wait s = meas_pwr_wait-step s
  new_sample-in sat_det s = sat_det-step s
  new_sample-in wait s = wait-step s

  -- The machine with its rules, callbacks and nested trigger does to every state what the flat
  -- step does, exceptions included: the wait is left at once, for the detection of saturation
  -- below the third stage and for fine tuning from then on.
  pub new_sample-step : (s : Agc) → new_sample lib s ≡ step s
  unfolding step
  new_sample-step s = new_sample-in s.state s

-- The branches of the flat step.
pub step_in-fine :
    (s : Agc) → ltb s.fine_adjust_count 3 ≡ true → step_in meas_pwr_wait s ≡ tuning_step s
step_in-fine s h = rw h

pub step_in-fine_done :
    (s : Agc) → ltb s.fine_adjust_count 3 ≡ false → step_in meas_pwr_wait s ≡ finish_step s
step_in-fine_done s h = rw h

pub step_in-saturated :
    (s : Agc) → s.sat_detected_flag ≡ true → step_in sat_det s ≡ saturation_step s
step_in-saturated s h = rw h
