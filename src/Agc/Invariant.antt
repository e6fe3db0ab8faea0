-- ===== src/Agc/Invariant.antt =====
-- What holds of the control between two samples: PYTHON/IrisUtils/agc_fsm_iris.py.
use houdini_lab.Common.{
  ℕ, zero, suc, ◌<◌, ◌≤◌, ◌≡◌, ◌≢◌, refl, sym, Bool, true, false, List, [], ◌∷◌, ◌++◌, arith, ltb,
  inl, inr, get_elem?, Bool-cases, Option-cases,
}
use houdini_lab.Common.Int.{pos, negsuc, ◌+ℤ◌, ◌≤ℤ◌}
use houdini_lab.Agc.State.{State, Gains, Stage, GainCall, idle, meas_pwr_wait, sat_det, wait, Agc}
use houdini_lab.Agc.Gains.{Outcome, ok, raised, full_reset, sat_drop}
use houdini_lab.Agc.Machine.{Transitions, new_sample}
use houdini_lab.Agc.Table.{InRange, gained}
use houdini_lab.Agc.Step.{
  step_in, step, new_sample-step, next_stage, tuned, saturation_step, tuning_step, finish_step,
}
use houdini_lab.Agc.Effects.{
  dropped, aimed, saturation_step-eq, tuning_step-eq, tuning_step-saturated, tuning_step-missing,
}

-- The total of the reductions before each stage.
abbrev pub dropped_at : ℕ → ℕ
dropped_at zero = 0
dropped_at (suc zero) = 20
dropped_at (suc (suc zero)) = 30
dropped_at (suc (suc (suc _))) = 40

abbrev pub CallInRange : GainCall → Type 0
CallInRange (Stage.lna, v) = (pos 0 ≤ℤ v) × (v ≤ℤ pos 30)
CallInRange (Stage.tia, v) = (pos 0 ≤ℤ v) × (v ≤ℤ pos 12)
CallInRange (Stage.pga, v) = (negsuc 11 ≤ℤ v) × (v ≤ℤ pos 19)
CallInRange (Stage.chain, v) = v ≡ pos 90

abbrev pub CallsInRange : List GainCall → Type 0
CallsInRange [] = Unit {0}
CallsInRange (c ∷ cs) = CallInRange c × CallsInRange cs

pub CallsInRange-append :
    (cs ds : List GainCall) → CallsInRange cs → CallsInRange ds → CallsInRange (cs ++ ds)
CallsInRange-append [] ds h k = k
CallsInRange-append (c ∷ cs) ds h k = (h.0, CallsInRange-append cs ds h.1 k)

-- The state machine waits only inside a call. While it looks for saturation fewer than three
-- reductions were made and they add up to the adjustment; the counters stay within their limits;
-- an idle machine is reset; and no amplifier was ever set out of its range, the whole chain to 90.
pub record Inv (s : Agc) : Type 0 where
  pub not_waiting : s.state ≢ wait
  pub stage_capped : s.gain_adjust_stage ≤ 3
  pub fine_capped : s.fine_adjust_count ≤ 3
  pub coarse_stage : s.state ≡ sat_det → s.gain_adjust_stage < 3
  pub coarse_total :
      s.state ≡ sat_det → s.cumulative_gain_adjust ≡ pos (dropped_at s.gain_adjust_stage)
  pub coarse_first : s.state ≡ sat_det → s.fine_adjust_count ≡ 0
  pub idle_reset :
      s.state ≡ idle
      → (s.gain_adjust_stage ≡ 0) × (s.fine_adjust_count ≡ 0) × (s.cumulative_gain_adjust ≡ pos 0)
  pub calls_in_range : CallsInRange s.gain_calls

-- The state that a call leaves behind, also if it raised.
abbrev pub LeftBy {ℓ} : {A : Type 0} (P : Agc → Type ℓ) → Outcome A → Type ℓ
LeftBy P (ok _ s) = P s
LeftBy P (raised _ s) = P s

state_of : (s : Agc) {st : State} → s.state ≡ st → s ≡ record s { state = st }
state_of s h = rw (sym h)

CallsInRange-gained :
    (s : Agc) (g : Gains)
    → InRange g
    → CallsInRange s.gain_calls
    → CallsInRange (gained s g).gain_calls
CallsInRange-gained s g r h =
    CallsInRange-append s.gain_calls _ h ((r.0, r.1), ((r.2, r.3), ((r.4, r.5), tt)))

-- A machine that looks for saturation with so many reductions made.
started-Inv :
    (s : Agc)
    → CallsInRange s.gain_calls
    → s.gain_adjust_stage < 3
    → s.fine_adjust_count ≡ 0
    → s.cumulative_gain_adjust ≡ pos (dropped_at s.gain_adjust_stage)
    → Inv (record s { state = sat_det })
started-Inv s c lt f total = record {
  not_waiting = λ e. cc;
  stage_capped = omega arith;
  fine_capped = omega arith;
  coarse_stage = λ _. lt;
  coarse_total = λ _. total;
  coarse_first = λ _. f;
  idle_reset = λ e. cc;
  calls_in_range = c;
}

measuring-Inv :
    (s : Agc)
    → CallsInRange s.gain_calls
    → s.gain_adjust_stage ≤ 3
    → s.fine_adjust_count ≤ 3
    → Inv (record s { state = meas_pwr_wait })
measuring-Inv s c le f = record {
  not_waiting = λ e. cc;
  stage_capped = le;
  fine_capped = f;
  coarse_stage = λ e. cc;
  coarse_total = λ e. cc;
  coarse_first = λ e. cc;
  idle_reset = λ e. cc;
  calls_in_range = c;
}

-- A reduction, after n others.
reduced-Inv :
    (n : ℕ) (s : Agc) (g : Gains)
    → InRange g
    → n < 3
    → Inv (record s { state = sat_det; gain_adjust_stage = n })
    → Inv (
        next_stage
          (gained (dropped (record s { sat_detected_flag = false; gain_adjust_stage = n })) g))
unfolding ◌+ℤ◌
reduced-Inv zero s g r lt i =
    started-Inv
      (record (gained s g) {
        sat_detected_flag = false;
        gain_adjust_stage = 1;
        cumulative_gain_adjust = sat_drop 0 s.cumulative_gain_adjust;
      })
      (CallsInRange-gained s g r i.calls_in_range) (omega arith) (i.coarse_first refl)
      (rw (i.coarse_total refl))
reduced-Inv (suc zero) s g r lt i =
    started-Inv
      (record (gained s g) {
        sat_detected_flag = false;
        gain_adjust_stage = 2;
        cumulative_gain_adjust = sat_drop 1 s.cumulative_gain_adjust;
      })
      (CallsInRange-gained s g r i.calls_in_range) (omega arith) (i.coarse_first refl)
      (rw (i.coarse_total refl))
reduced-Inv (suc (suc zero)) s g r lt i =
    measuring-Inv
      (record (gained s g) {
        sat_detected_flag = false;
        gain_adjust_stage = 3;
        cumulative_gain_adjust = sat_drop 2 s.cumulative_gain_adjust;
      })
      (CallsInRange-gained s g r i.calls_in_range) (omega arith) i.fine_capped
reduced-Inv (suc (suc (suc n))) s g r lt i = absurd (omega arith)

reset-Inv : (s : Agc) → CallsInRange s.gain_calls → LeftBy Inv (finish_step s)
unfolding full_reset
reset-Inv s h = record {
  not_waiting = λ e. cc;
  stage_capped = omega arith;
  fine_capped = omega arith;
  coarse_stage = λ e. cc;
  coarse_total = λ e. cc;
  coarse_first = λ e. cc;
  idle_reset = λ _. (refl, refl, refl);
  calls_in_range = h;
}

LeftBy-equal : {o o' : Outcome Bool} → o ≡ o' → LeftBy Inv o' → LeftBy Inv o
LeftBy-equal h k = rw h k

idle_step-Inv :
    (s : Agc)
    → Inv (record s { state = idle })
    → LeftBy Inv (step_in idle (record s { state = idle }))
idle_step-Inv s i = elim (Bool-cases s.enable_agc_flag) [
  | inl e ↦ LeftBy-equal {o' = ok true (record s { state = sat_det })} (rw e) (
      started-Inv s i.calls_in_range (rw ((i.idle_reset refl).0) (omega arith))
        ((i.idle_reset refl).1) (rw ((i.idle_reset refl).0, (i.idle_reset refl).2)))
  | inr e ↦ LeftBy-equal {o' = ok false (record s { state = idle })} (rw e) i
]

sat_det_step-Inv :
    (s : Agc)
    → Inv (record s { state = sat_det })
    → LeftBy Inv (step_in sat_det (record s { state = sat_det }))
sat_det_step-Inv s i = elim (Bool-cases s.sat_detected_flag) [
  | inl e ↦
      let (g, h, r) = saturation_step-eq (record s { state = sat_det }) in
      LeftBy-equal {o' = saturation_step (record s { state = sat_det })} (rw e)
        (LeftBy-equal h (reduced-Inv s.gain_adjust_stage s g r (i.coarse_stage refl) i))
  | inr e ↦ elim (Bool-cases s.sat_det_good_flag) [
    | inl good ↦
        LeftBy-equal {o' = ok true (record s { state = meas_pwr_wait; sat_detected_flag = false })}
          (rw (e, good))
          (measuring-Inv (record s { sat_detected_flag = false }) i.calls_in_range i.stage_capped
            i.fine_capped)
    | inr bad ↦ LeftBy-equal {o' = ok false (record s { state = sat_det })} (rw (e, bad)) i
  ]
]

tuning_step-Inv :
    (s : Agc)
    → CallsInRange s.gain_calls
    → s.fine_adjust_count < 3
    → LeftBy Inv (tuning_step (record s { state = meas_pwr_wait }))
tuning_step-Inv s c lt = elim (Option-cases (get_elem? s.rssi s.current_sample)) [
  | inl none_there ↦
      LeftBy-equal (tuning_step-missing (record s { state = meas_pwr_wait }) none_there)
        (measuring-Inv (record s { gain_adjust_stage = 3 }) c (omega arith) (omega arith))
  | inr (pos n, h) ↦
      LeftBy-equal (tuning_step-saturated (record s { state = meas_pwr_wait }) n h)
        (measuring-Inv (record s { gain_adjust_stage = 3 }) c (omega arith) (omega arith))
  | inr (negsuc n, h) ↦
      let (g, e, r) = tuning_step-eq (record s { state = meas_pwr_wait }) n h in
      LeftBy-equal e (
        measuring-Inv (tuned (gained (aimed (record s { gain_adjust_stage = 3 }) n) g))
          (CallsInRange-gained s g r c) (omega arith) (omega arith))
]

meas_pwr_wait_step-Inv :
    (s : Agc)
    → Inv (record s { state = meas_pwr_wait })
    → LeftBy Inv (step_in meas_pwr_wait (record s { state = meas_pwr_wait }))
meas_pwr_wait_step-Inv s i = elim (Bool-cases (ltb s.fine_adjust_count 3)) [
  | inl more ↦
      LeftBy-equal {o' = tuning_step (record s { state = meas_pwr_wait })} (rw more)
        (tuning_step-Inv s i.calls_in_range (ground arith))
  | inr done ↦
      LeftBy-equal {o' = finish_step (record s { state = meas_pwr_wait })} (rw done)
        (reset-Inv (record s { state = idle }) i.calls_in_range)
]

step_in-Inv :
    (st : State) (s : Agc)
    → Inv (record s { state = st })
    → LeftBy Inv (step_in st (record s { state = st }))
step_in-Inv idle s i = idle_step-Inv s i
step_in-Inv meas_pwr_wait s i = meas_pwr_wait_step-Inv s i
step_in-Inv sat_det s i = sat_det_step-Inv s i
step_in-Inv wait s i = i

-- Every sample keeps the invariant, also one that raises an exception.
pub new_sample-Inv : (lib : Transitions) (s : Agc) → Inv s → LeftBy Inv (new_sample lib s)
unfolding step
new_sample-Inv lib s i = LeftBy-equal (new_sample-step lib s) (step_in-Inv s.state s i)
