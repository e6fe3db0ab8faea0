-- ===== src/Agc/Machine.antt =====
-- PYTHON/IrisUtils/agc_fsm_iris.py: the seven rules of the machine and its two triggers. The
-- library `transitions` is the interface `Transitions`.
use houdini_lab.Common.{
  ◌≡◌, Bool, true, false, ◌&&◌, ◌||◌, Option, none, some, List, [], ◌∷◌, if◌then◌else◌,
}
use houdini_lab.Agc.State.{State, idle, meas_pwr_wait, sat_det, wait, Agc}
use houdini_lab.Agc.Gains.{
  machine_error, ok, raised, M, Callback, ◌>>◌, pure, modify, set_sat_gain, fine_tuning,
  is_agc_enabled, fine_tuning_counter, is_fine_tuning_done, is_fine_tuning_not_done,
  is_saturation_detected, set_final_stage, reset_saturation, is_sat_det_good, stage_counter,
  is_final_stage, is_not_final_stage, full_reset, print_state,
}

-- The arguments of `add_transition`.
pub record Rule : Type 0 where
  pub source : State
  pub dest : State
  pub before : List Callback
  pub after : List Callback
  pub conditions : List (Agc → Bool)

abbrev pub same_state : State → State → Bool
same_state idle idle = true
same_state meas_pwr_wait meas_pwr_wait = true
same_state sat_det sat_det = true
same_state wait wait = true
same_state _ _ = false

abbrev pub all_hold : List (Agc → Bool) → Agc → Bool
all_hold [] s = true
all_hold (c ∷ cs) s = c s && all_hold cs s

-- The first rule that leaves the state and whose conditions hold.
abbrev pub first_enabled : List Rule → Agc → Option Rule
first_enabled [] s = none
first_enabled (r ∷ rs) s =
    let rest = first_enabled rs s in
    if same_state r.source s.state && all_hold r.conditions s then some r else rest

abbrev pub has_source : List Rule → State → Bool
has_source [] st = false
has_source (r ∷ rs) st = same_state r.source st || has_source rs st

abbrev pub run_all : List Callback → Callback
run_all [] = pure tt
run_all (c ∷ cs) = c >> run_all cs

-- The callbacks before, the change of state, the callbacks after.
abbrev pub run_rule : Rule → M Bool
run_rule r = do
  run_all r.before
  modify (λ s. record s { state = r.dest })
  run_all r.after
  pure true

-- A trigger of the library, by the rules that were added for it in this order: it runs the first
-- rule that is enabled; it returns False if the state has rules but none is enabled; it raises a
-- MachineError if the state has no rule for the trigger.
pub record Transitions : Type 0 where
  pub fire : List Rule → M Bool
  pub fire_enabled :
      (rules : List Rule) (s : Agc) (r : Rule)
      → first_enabled rules s ≡ some r
      → fire rules s ≡ run_rule r s
  pub fire_disabled :
      (rules : List Rule) (s : Agc)
      → first_enabled rules s ≡ none
      → has_source rules s.state ≡ true
      → fire rules s ≡ ok false s
  pub fire_invalid :
      (rules : List Rule) (s : Agc)
      → has_source rules s.state ≡ false
      → fire rules s ≡ raised machine_error s

-- Rule no. 1 (Idle-to-SatDet).
abbrev pub rule_1 : Rule
rule_1 = record {
  source = idle;
  dest = sat_det;
  before = print_state ∷ [];
  after = print_state ∷ [];
  conditions = is_agc_enabled ∷ [];
}

-- Rule no. 3 (SatDet-to-MeasurePwrWait).
abbrev pub rule_3 : Rule
rule_3 = record {
  source = sat_det;
  dest = meas_pwr_wait;
  before = reset_saturation ∷ [];
  after = print_state ∷ [];
  conditions = is_sat_det_good ∷ [];
}

-- Rule no. 4 (Wait-to-SatDet).
abbrev pub rule_4 : Rule
rule_4 = record {
  source = wait;
  dest = sat_det;
  before = [];
  after = print_state ∷ [];
  conditions = is_not_final_stage ∷ [];
}

-- Rule no. 5 (Wait-to-MeasurePwrWait).
abbrev pub rule_5 : Rule
rule_5 = record {
  source = wait;
  dest = meas_pwr_wait;
  before = [];
  after = print_state ∷ [];
  conditions = is_final_stage ∷ [];
}

-- Rule no. 7 (MeasurePwrWait-to-Idle).
abbrev pub rule_7 : Rule
rule_7 = record {
  source = meas_pwr_wait;
  dest = idle;
  before = [];
  after = print_state ∷ full_reset ∷ [];
  conditions = is_fine_tuning_done ∷ [];
}

abbrev pub gain_done_rules : List Rule
gain_done_rules = rule_4 ∷ rule_5 ∷ []

module _ (lib : Transitions) where
  open lib use {fire}

  -- The trigger gainDone.
  unfoldable pub gain_done : M Bool
  gain_done = fire gain_done_rules

  -- The wait itself only lets the gain settle.
  unfoldable pub wait_timeout : Callback
  wait_timeout = gain_done >> pure tt

  -- Rule no. 2 (SatDet-to-Wait).
  abbrev pub rule_2 : Rule
  rule_2 = record {
    source = sat_det;
    dest = wait;
    before = reset_saturation ∷ set_sat_gain ∷ [];
    after = print_state ∷ stage_counter ∷ wait_timeout ∷ [];
    conditions = is_saturation_detected ∷ [];
  }

  -- Rule no. 6 (MeasurePwrWait-to-Wait).
  abbrev pub rule_6 : Rule
  rule_6 = record {
    source = meas_pwr_wait;
    dest = wait;
    before = set_final_stage ∷ fine_tuning ∷ [];
    after = print_state ∷ fine_tuning_counter ∷ wait_timeout ∷ [];
    conditions = is_fine_tuning_not_done ∷ [];
  }

  abbrev pub new_sample_rules : List Rule
  new_sample_rules = rule_1 ∷ rule_2 ∷ rule_3 ∷ rule_6 ∷ rule_7 ∷ []

  -- The trigger newSample.
  unfoldable pub new_sample : M Bool
  new_sample = fire new_sample_rules
