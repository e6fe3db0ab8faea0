-- ===== src/Agc/Tests.antt =====
-- Runs of the gain control: PYTHON/IrisUtils/agc_fsm_iris.py, PYTHON/DEMOS/AGC_SIM_DEMO.py.
use houdini_lab.Common.{
  ℕ, zero, suc, ◌+◌, ◌≡◌, refl, true, false, List, [], ◌∷◌, ◌++◌, arith, replicate,
}
use houdini_lab.Common.Int.{ℤ, pos, negsuc, ◌+ℤ◌, ◌-ℤ◌}
use houdini_lab.Agc.State.{State, Gains, idle, meas_pwr_wait, Agc, gain_table, rows_of, only_row}
use houdini_lab.Agc.State
use houdini_lab.Agc.Gains.{
  Outcome, ok, raised, set_sat_gain, fine_tuning, full_reset, apply_gain, adjusted_gain,
}
use houdini_lab.Agc.Machine.{new_sample, gain_done, wait_timeout}
use houdini_lab.Agc.Step.{step, new_sample-step}
use houdini_lab.Agc.Dispatch.{dispatch, initial}
use houdini_lab.Agc.Frame.{begin_frame, read_sample, read_samples, run_frame}
use houdini_lab.Agc.Invariant.{Inv, LeftBy, new_sample-Inv}
use houdini_lab.Agc.Errors.{Returns, new_sample-Returns}
use houdini_lab.Agc.Liveness.{Ready, AllFit, run_frame-Ready}
use houdini_lab.Agc.Skipped.{run_frame-skipped}

initial-Inv : Inv initial
initial-Inv = record {
  not_waiting = λ e. cc;
  stage_capped = omega arith;
  fine_capped = omega arith;
  coarse_stage = λ e. cc;
  coarse_total = λ e. cc;
  coarse_first = λ e. cc;
  idle_reset = λ _. (refl, refl, refl);
  calls_in_range = tt;
}

initial-Ready : Ready initial
initial-Ready = record {
  inv = initial-Inv;
  at_rest = refl;
  rssi_length = refl;
  fresh_length = refl;
}

-- The machine looks for fine gains and has one more to make.
abbrev measuring : ℤ → Agc
measuring v = record initial { state = meas_pwr_wait; fine_adjust_count = 2; rssi = v ∷ [] }

new_sample-step_example :
    new_sample dispatch (measuring (negsuc 19999)) ≡ step (measuring (negsuc 19999))
new_sample-step_example = new_sample-step dispatch (measuring (negsuc 19999))

new_sample-Inv_example :
    LeftBy Inv (new_sample dispatch (record initial { enable_agc_flag = true }))
new_sample-Inv_example =
    new_sample-Inv dispatch (record initial { enable_agc_flag = true })
      (record {
        not_waiting = λ e. cc;
        stage_capped = omega arith;
        fine_capped = omega arith;
        coarse_stage = λ e. cc;
        coarse_total = λ e. cc;
        coarse_first = λ e. cc;
        idle_reset = λ _. (refl, refl, refl);
        calls_in_range = tt;
      })

new_sample-Returns_example :
    Returns (new_sample dispatch (record initial { rssi = negsuc 19999 ∷ [] }))
new_sample-Returns_example =
    new_sample-Returns dispatch (record initial { rssi = negsuc 19999 ∷ [] }) 19999
      (record {
        not_waiting = λ e. cc;
        stage_capped = omega arith;
        fine_capped = omega arith;
        coarse_stage = λ e. cc;
        coarse_total = λ e. cc;
        coarse_first = λ e. cc;
        idle_reset = λ _. (refl, refl, refl);
        calls_in_range = tt;
      })
      refl

-- Twenty readings of -20 dB.
abbrev steady : List ℤ
steady = replicate 20 (negsuc 19999)

replicate-AllFit : (n k : ℕ) → AllFit n (replicate k (negsuc 19999))
replicate-AllFit n zero = tt
replicate-AllFit n (suc k) = ((omega arith, λ _. omega arith), replicate-AllFit (n + 1) k)

run_frame-Ready_example :
    (t : Agc) × (run_frame dispatch steady initial ≡ ok tt t)
    × Ready t
    × (t.enable_agc_flag ≡ false)
run_frame-Ready_example =
    run_frame-Ready dispatch steady initial initial-Ready refl (replicate-AllFit 0 20)

-- The third saturated reading of this frame is its sample 15.
abbrev late : List ℤ
late = replicate 13 (negsuc 19999) ++ (replicate 3 (negsuc 999) ++ replicate 4 (negsuc 19999))

abbrev left : Outcome (Unit {0}) → Agc
left (ok _ s) = s
left (raised _ s) = s

abbrev after_late : Agc
after_late = left (run_frame dispatch late initial)

-- The machine is left with its fine adjustments done.
run_frame-skipped_example :
    (t : Agc) × (run_frame dispatch steady after_late ≡ ok tt t)
    × (t.state ≡ idle)
    × (t.gain_calls ≡ after_late.gain_calls ++ ((State.Stage.chain, pos 90) ∷ []))
unfolding run_frame read_samples read_sample begin_frame new_sample dispatch gain_done wait_timeout
    set_sat_gain fine_tuning apply_gain adjusted_gain full_reset gain_table rows_of ◌+ℤ◌ ◌-ℤ◌
run_frame-skipped_example =
    run_frame-skipped dispatch steady after_late refl (omega arith) refl refl refl
