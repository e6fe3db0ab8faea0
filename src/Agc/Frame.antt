-- ===== src/Agc/Frame.antt =====
-- PYTHON/DEMOS/AGC_SIM_DEMO.py, agc_thread: the samples of a frame drive the machine.
use houdini_lab.Common.{
  ℕ, ◌+◌, true, false, List, [], ◌∷◌, ◌++◌, ltb, leb, ◌==◌, if◌then◌else◌, length, get_elem?, set,
}
use houdini_lab.Common.Int.{ℤ, pos, ltb_ℤ}
use houdini_lab.Agc.State.{Agc, rssi_sat_thresh, num_samp_thresh, num_samp_above_thresh}
use houdini_lab.Agc.State
use houdini_lab.Agc.Gains.{
  ok, raised, Callback, ◌>>=◌, ◌>>◌, pure, modify, or_raise, index_error, enable_agc,
}
use houdini_lab.Agc.Machine.{Transitions, new_sample}

-- The start of a frame: the counters are reset, the control is enabled, the gain is set to 90.
unfoldable pub begin_frame : Agc → Agc
begin_frame s =
    let t =
      enable_agc
        (record s { num_sat_samps = 0; sat_detected_flag = false; sat_det_good_flag = false }) in
    record t { gain_calls = t.gain_calls ++ ((State.Stage.chain, pos 90) ∷ []) }

-- `rssi[i] = v`
abbrev pub store : ℕ → ℤ → Callback
store i v s =
    if ltb i (length s.rssi)
    then ok tt (record s { rssi = set s.rssi i v })
    else raised index_error s

-- A sample over the threshold is counted.
abbrev pub count_sample : ℤ → Agc → Agc
count_sample v s =
    if ltb_ℤ rssi_sat_thresh v then record s { num_sat_samps = s.num_sat_samps + 1 } else s

abbrev pub detect_saturation : Agc → Agc
detect_saturation s =
    if leb num_samp_above_thresh s.num_sat_samps
    then record s { sat_detected_flag = true; num_sat_samps = 0 }
    else s

abbrev pub detect_good : ℕ → Agc → Agc
detect_good i s = if i + 1 == num_samp_thresh then record s { sat_det_good_flag = true } else s

module _ (lib : Transitions) where
  -- The sample i, whose power is v.
  unfoldable pub read_sample : ℕ → ℤ → Callback
  read_sample i v = do
    modify (λ s. record s { current_sample = i })
    store i v
    power ← (λ s. or_raise (get_elem? s.rssi i) index_error s)
    modify (count_sample power)
    modify detect_saturation
    modify (detect_good i)
    new_sample lib
    pure tt

  -- The samples from i on.
  unfoldable pub read_samples : ℕ → List ℤ → Callback
  read_samples i [] = pure tt
  read_samples i (v ∷ vs) = read_sample i v >> read_samples (i + 1) vs

  -- A frame, by the powers that `getDigitalRSSI` reads.
  unfoldable pub run_frame : List ℤ → Callback
  run_frame vs = modify begin_frame >> read_samples 0 vs

  -- The frames one after the other.
  unfoldable pub agc_thread : List (List ℤ) → Callback
  agc_thread [] = pure tt
  agc_thread (vs ∷ frames) = run_frame vs >> agc_thread frames
