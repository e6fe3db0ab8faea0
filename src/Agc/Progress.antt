-- ===== src/Agc/Progress.antt =====
-- Where a frame is after each sample: PYTHON/DEMOS/AGC_SIM_DEMO.py, agc_thread.
use houdini_lab.Common.{
  ap, ℕ, ◌+◌, ◌<◌, ◌≤◌, ◌≡◌, refl, ◌∙◌, Bool, true, false, some, arith, ltb, ◌==◌, get_elem?,
  length, inl, inr, Bool-cases, sym,
}
use houdini_lab.Common.Int.{negsuc}
use houdini_lab.Agc.State.{State, Gains, idle, meas_pwr_wait, sat_det, Agc}
use houdini_lab.Agc.Gains.{ok, full_reset}
use houdini_lab.Agc.Machine.{Transitions, new_sample}
use houdini_lab.Agc.Table.{gained}
use houdini_lab.Agc.Step.{
  step_in, step_in-fine, step_in-fine_done, step_in-saturated, step, new_sample-step, next_stage,
}
use houdini_lab.Agc.Effects.{dropped, saturation_step-eq, tuning_step-eq}

-- Where a frame is after n of its samples: it is over; or it still looks for saturation, at
-- sample 15 at the latest; or the fine adjustments are on time for the twenty samples.
pub data Phase (n : ℕ) (s : Agc) : Type 0 where
  over : s.state ≡ idle → s.enable_agc_flag ≡ false → Phase n s
  looking :
      s.state ≡ sat_det
      → n ≤ 15
      → s.sat_detected_flag ≡ false
      → s.sat_det_good_flag ≡ false
      → Phase n s
  tuning : s.state ≡ meas_pwr_wait → n ≤ 16 + s.fine_adjust_count → Phase n s

-- What does not depend on the phase.
abbrev pub Sized : Agc → Type 0
Sized s = (s.num_sat_samps < 3) × (length s.rssi ≡ 100) × (length s.uninitialised ≡ 100)

-- A step in one state, from a machine whose state field is `st`.
pub step_in-idle : (s : Agc) → s.enable_agc_flag ≡ false → step_in idle s ≡ ok false s
step_in-idle s h = rw h

step_in-enabled :
    (s : Agc) → s.enable_agc_flag ≡ true → step_in idle s ≡ ok true (record s { state = sat_det })
step_in-enabled s h = rw h

not_16 : (n : ℕ) → n ≤ 15 → (n + 1 == 16) ≡ false → n + 1 ≤ 15
not_16 n le h = ground arith

step_in-good :
    (s : Agc)
    → s.sat_detected_flag ≡ false
    → s.sat_det_good_flag ≡ true
    → step_in sat_det s ≡ ok true (record s { state = meas_pwr_wait; sat_detected_flag = false })
step_in-good s h k = rw (h, k)

step_in-looking :
    (s : Agc)
    → s.sat_detected_flag ≡ false
    → s.sat_det_good_flag ≡ false
    → step_in sat_det s ≡ ok false s
step_in-looking s h k = rw (h, k)

module _ (lib : Transitions) where
  pub step_at : (s : Agc) {st : State} → s.state ≡ st → new_sample lib s ≡ step_in st s
  unfolding step
  step_at s h = new_sample-step lib s ∙ ap (λ st. step_in st s) h

  -- The trigger returns, and one more sample is done.
  abbrev pub Advances : ℕ → Agc → Type 0
  Advances n s = (b : Bool) × (t : Agc) × (new_sample lib s ≡ ok b t) × Phase (n + 1) t × Sized t

  pub over-Advances :
      (n : ℕ) (s : Agc) → s.state ≡ idle → s.enable_agc_flag ≡ false → Sized s → Advances n s
  over-Advances n s h e z = (false, s, step_at s h ∙ step_in-idle s e, over h e, z)

  pub started-Advances :
      (s : Agc)
      → s.state ≡ idle
      → s.enable_agc_flag ≡ true
      → s.sat_detected_flag ≡ false
      → s.sat_det_good_flag ≡ false
      → Sized s
      → Advances 0 s
  started-Advances s h e flag good z = (
    true,
    record s { state = sat_det },
    step_at s h ∙ step_in-enabled s e,
    looking refl (omega arith) flag good,
    z,
  )

  reduced-Phase :
      (n : ℕ) (s : Agc) (g : Gains)
      → n < 15
      → s.sat_det_good_flag ≡ false
      → Phase (n + 1) (next_stage (gained (dropped (record s { sat_detected_flag = false })) g))
  reduced-Phase n s g lt h = elim (Bool-cases (ltb (s.gain_adjust_stage + 1) 3)) [
    | inl e ↦ looking (rw e) (omega arith) refl h
    | inr e ↦ tuning (rw e) (omega arith)
  ]

  pub saturated-Advances :
      (n : ℕ) (s : Agc)
      → s.state ≡ sat_det
      → n < 15
      → s.sat_detected_flag ≡ true
      → s.sat_det_good_flag ≡ false
      → Sized s
      → Advances n s
  saturated-Advances n s h lt flag good z =
      let (g, k, r) = saturation_step-eq s in
      (true, _, step_at s h ∙ step_in-saturated s flag ∙ k, reduced-Phase n s g lt good, z)

  pub quiet-Advances :
      (n : ℕ) (s : Agc)
      → s.state ≡ sat_det
      → n ≤ 15
      → s.sat_detected_flag ≡ false
      → s.sat_det_good_flag ≡ (n + 1 == 16)
      → Sized s
      → Advances n s
  quiet-Advances n s h le flag good z = elim (Bool-cases s.sat_det_good_flag) [
    | inl e ↦ (
      true,
      record s { state = meas_pwr_wait; sat_detected_flag = false },
      step_at s h ∙ step_in-good s flag e,
      tuning refl (omega arith),
      z,
    )
    | inr e ↦ (
      false,
      s,
      step_at s h ∙ step_in-looking s flag e,
      looking h (not_16 n le (sym good ∙ e)) flag e,
      z,
    )
  ]

  pub tuning-Advances :
      (n m : ℕ) (s : Agc)
      → s.state ≡ meas_pwr_wait
      → n ≤ 16 + s.fine_adjust_count
      → get_elem? s.rssi s.current_sample ≡ some (negsuc m)
      → Sized s
      → Advances n s
  unfolding full_reset
  tuning-Advances n m s h le reading z = elim (Bool-cases (ltb s.fine_adjust_count 3)) [
    | inl more ↦
        let (g, k, r) = tuning_step-eq s m reading in
        (true, _, step_at s h ∙ step_in-fine s more ∙ k, tuning refl (omega arith), z)
    | inr done ↦ (
      true,
      _,
      step_at s h ∙ step_in-fine_done s done ∙ refl,
      over refl refl,
      (omega arith, z.2, z.2),
    )
  ]
