-- ===== src/Agc/Dispatch.antt =====
-- A dispatcher that does what the library `transitions` documents, and a machine to run it on.
use houdini_lab.Common.{
  arith, ◌≡◌, refl, Bool, true, false, Option, none, some, List, [], ◌∷◌, replicate, inl, inr,
  Bool-cases,
}
use houdini_lab.Common.Int.{pos}
use houdini_lab.Agc.State.{Gains, Agc, idle}
use houdini_lab.Agc.Gains.{machine_error, ok, raised, M}
use houdini_lab.Agc.Machine.{Rule, Transitions, same_state, first_enabled, has_source, run_rule}

abbrev fire_by : Option Rule → Bool → M Bool
fire_by none true s = ok false s
fire_by none false s = raised machine_error s
fire_by (some r) _ s = run_rule r s

abbrev fire : List Rule → M Bool
fire rules s = fire_by (first_enabled rules s) (has_source rules s.state) s

pub no_source :
    (rules : List Rule) (s : Agc) → has_source rules s.state ≡ false → first_enabled rules s ≡ none
no_source [] s h = refl
no_source (r ∷ rs) s h = elim (Bool-cases (same_state r.source s.state)) [
  | inl e ↦ absurd (ground arith)
  | inr e ↦ rw e (no_source rs s (ground arith))
]

unfoldable pub dispatch : Transitions
dispatch = record {
  fire = fire;
  fire_enabled = λ rules s r h. rw h;
  fire_disabled = λ rules s h k. rw (h, k);
  fire_invalid = λ rules s h. rw (no_source rules s h, h);
}

abbrev pub max_gains : Gains
max_gains = record { lna = pos 30; tia = pos 12; pga = pos 19 }

-- The machine as it is created.
abbrev pub initial : Agc
initial = record {
  state = idle;
  current_sample = 0;
  enable_agc_flag = false;
  num_sat_samps = 0;
  gain_adjust_stage = 0;
  sat_det_good_flag = false;
  sat_detected_flag = false;
  wait_count = 0;
  fine_adjust_count = 0;
  cumulative_gain_adjust = pos 0;
  gain = max_gains;
  rssi = replicate 100 (pos 0);
  gain_calls = [];
  get_gain = max_gains;
  uninitialised = replicate 100 (pos 0);
}
