-- ===== src/Agc/Effects.antt =====
-- What the two gain callbacks do, and each kind of step: PYTHON/IrisUtils/agc_fsm_iris.py.
use houdini_lab.Common.{ℕ, suc, ◌≡◌, true, false, none, some, arith, get_elem?}
use houdini_lab.Common.Int.{pos, negsuc, ◌+ℤ◌, ◌-ℤ◌}
use houdini_lab.Agc.State.{Gains, Agc, target_rssi, max_num_sat_adjust}
use houdini_lab.Agc.Gains.{
  ok, raised, ◌>>=◌, or_raise, unbound_local_error, index_error, sat_drop, trunc, rssi_diff,
  set_sat_gain, fine_tuning,
}
use houdini_lab.Agc.Table.{InRange, gained, apply_gain-gained}
use houdini_lab.Agc.Step.{next_stage, tuned, saturation_step, tuning_step}

-- The state in which a reduction for saturation looks up its gain.
abbrev pub dropped : Agc → Agc
dropped s = record s {
  gain = s.get_gain;
  cumulative_gain_adjust = sat_drop s.gain_adjust_stage s.cumulative_gain_adjust;
}

pub set_sat_gain-gained :
    (s : Agc) → (g : Gains) × (set_sat_gain s ≡ ok tt (gained (dropped s) g)) × InRange g
unfolding set_sat_gain
set_sat_gain-gained s = let (g, e, h) = apply_gain-gained (dropped s) in (g, e, h)

-- The reading that fine tuning takes as `negsuc n` is -(n + 1) thousandths of a dB.
abbrev pub aimed : Agc → ℕ → Agc
aimed s n = record s {
  cumulative_gain_adjust = s.cumulative_gain_adjust +ℤ trunc (pos target_rssi -ℤ pos (suc n));
}

rssi_diff_neg : (n : ℕ) → rssi_diff (negsuc n) ≡ some (pos target_rssi -ℤ pos (suc n))
rssi_diff_neg n = ground arith

rssi_diff_pos : (n : ℕ) → rssi_diff (pos n) ≡ none
rssi_diff_pos n = ground arith

pub fine_tuning-gained :
    (s : Agc) (n : ℕ)
    → get_elem? s.rssi s.current_sample ≡ some (negsuc n)
    → (g : Gains) × (fine_tuning s ≡ ok tt (gained (aimed s n) g)) × InRange g
unfolding fine_tuning
fine_tuning-gained s n h =
    let (g, e, r) = apply_gain-gained (aimed s n) in
    (g, rw (h, fine_tuning, ◌>>=◌, or_raise, rssi_diff_neg n) e, r)

pub fine_tuning-saturated :
    (s : Agc) (n : ℕ)
    → get_elem? s.rssi s.current_sample ≡ some (pos n)
    → fine_tuning s ≡ raised unbound_local_error s
unfolding fine_tuning
fine_tuning-saturated s n h = rw (h, fine_tuning, ◌>>=◌, or_raise, rssi_diff_pos n)

pub fine_tuning-missing :
    (s : Agc) → get_elem? s.rssi s.current_sample ≡ none → fine_tuning s ≡ raised index_error s
unfolding fine_tuning
fine_tuning-missing s h = rw (h, fine_tuning, ◌>>=◌, or_raise)

-- The steps that touch the amplifiers, of a machine in the given state.
pub saturation_step-eq :
    (s : Agc)
    → (g : Gains) × (saturation_step s
        ≡ ok true (next_stage (gained (dropped (record s { sat_detected_flag = false })) g)))
      × InRange g
saturation_step-eq s =
    let (g, e, r) = set_sat_gain-gained (record s { sat_detected_flag = false }) in
    (g, rw (e, ◌>>=◌), r)

pub tuning_step-eq :
    (s : Agc) (n : ℕ)
    → get_elem? s.rssi s.current_sample ≡ some (negsuc n)
    → (g : Gains) × (tuning_step s
        ≡ ok true
            (tuned (gained (aimed (record s { gain_adjust_stage = max_num_sat_adjust }) n) g)))
      × InRange g
tuning_step-eq s n h =
    let (g, e, r) = fine_tuning-gained (record s { gain_adjust_stage = max_num_sat_adjust }) n h in
    (g, rw (e, ◌>>=◌), r)

pub tuning_step-saturated :
    (s : Agc) (n : ℕ)
    → get_elem? s.rssi s.current_sample ≡ some (pos n)
    → tuning_step s
      ≡ raised unbound_local_error (record s { gain_adjust_stage = max_num_sat_adjust })
tuning_step-saturated s n h =
    rw (fine_tuning-saturated (record s { gain_adjust_stage = max_num_sat_adjust }) n h, ◌>>=◌)

pub tuning_step-missing :
    (s : Agc)
    → get_elem? s.rssi s.current_sample ≡ none
    → tuning_step s ≡ raised index_error (record s { gain_adjust_stage = max_num_sat_adjust })
tuning_step-missing s h =
    rw (fine_tuning-missing (record s { gain_adjust_stage = max_num_sat_adjust }) h, ◌>>=◌)
