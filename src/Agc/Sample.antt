-- ===== src/Agc/Sample.antt =====
-- What agc_thread of PYTHON/DEMOS/AGC_SIM_DEMO.py does before it calls the trigger.
use houdini_lab.Common.{
  ap, ℕ, ◌+◌, ◌<◌, ◌≡◌, refl, ◌∙◌, Bool, true, false, arith, ltb, leb, ◌==◌, if◌then◌else◌, set,
  length, get_elem?-set_self,
}
use houdini_lab.Common.Int.{ℤ, ltb_ℤ}
use houdini_lab.Agc.State.{Agc, rssi_sat_thresh}
use houdini_lab.Agc.Gains.{◌>>=◌, ◌>>◌, pure, or_raise}
use houdini_lab.Agc.Machine.{Transitions, new_sample}
use houdini_lab.Agc.Invariant.{Inv}
use houdini_lab.Agc.Frame.{count_sample, detect_saturation, detect_good, read_sample}

abbrev pub counted : ℤ → Agc → ℕ
counted v s = if ltb_ℤ rssi_sat_thresh v then s.num_sat_samps + 1 else s.num_sat_samps

-- The machine when its trigger is called.
abbrev pub prepared : ℕ → ℤ → Agc → Agc
prepared i v s = record s {
  current_sample = i;
  rssi = set s.rssi i v;
  num_sat_samps = if leb 3 (counted v s) then 0 else counted v s;
  sat_detected_flag = if leb 3 (counted v s) then true else s.sat_detected_flag;
  sat_det_good_flag = if i + 1 == 16 then true else s.sat_det_good_flag;
}

count_if :
    (b : Bool) (s : Agc)
    → (if b then record s { num_sat_samps = s.num_sat_samps + 1 } else s)
      ≡ record s { num_sat_samps = if b then s.num_sat_samps + 1 else s.num_sat_samps }
count_if true s = refl
count_if false s = refl

detect_if :
    (b : Bool) (s : Agc)
    → (if b then record s { sat_detected_flag = true; num_sat_samps = 0 } else s) ≡ record s {
      num_sat_samps = if b then 0 else s.num_sat_samps;
      sat_detected_flag = if b then true else s.sat_detected_flag;
    }
detect_if true s = refl
detect_if false s = refl

good_if :
    (b : Bool) (s : Agc)
    → (if b then record s { sat_det_good_flag = true } else s)
      ≡ record s { sat_det_good_flag = if b then true else s.sat_det_good_flag }
good_if true s = refl
good_if false s = refl

counters-prepared :
    (i : ℕ) (v : ℤ) (s : Agc)
    → detect_good i (
        detect_saturation (count_sample v (record s { current_sample = i; rssi = set s.rssi i v })))
      ≡ prepared i v s
counters-prepared i v s =
    let stored : Agc = record s { current_sample = i; rssi = set s.rssi i v } in
    let numbered : Agc = record stored { num_sat_samps = counted v s } in
    ap (λ t. detect_good i (detect_saturation t)) (count_if (ltb_ℤ rssi_sat_thresh v) stored)
    ∙ ap (detect_good i) (detect_if (leb 3 (counted v s)) numbered)
    ∙ good_if (i + 1 == 16) (record numbered {
      num_sat_samps = if leb 3 (counted v s) then 0 else counted v s;
      sat_detected_flag = if leb 3 (counted v s) then true else s.sat_detected_flag;
    })

pub read_sample-prepared :
    (lib : Transitions) (i : ℕ) (v : ℤ) (s : Agc)
    → i < length s.rssi
    → read_sample lib i v s ≡ (new_sample lib >> pure tt) (prepared i v s)
unfolding read_sample
read_sample-prepared lib i v s h =
    let inside : ltb i (length s.rssi) ≡ true = ground arith in
    rw (inside, get_elem?-set_self s.rssi i v h, or_raise, ◌>>◌, ◌>>=◌)
      (ap (new_sample lib >> pure tt) (counters-prepared i v s))

pub prepared-Inv : (i : ℕ) (v : ℤ) (s : Agc) → Inv s → Inv (prepared i v s)
prepared-Inv i v s h = record {
  not_waiting = h.not_waiting;
  stage_capped = h.stage_capped;
  fine_capped = h.fine_capped;
  coarse_stage = h.coarse_stage;
  coarse_total = h.coarse_total;
  coarse_first = h.coarse_first;
  idle_reset = h.idle_reset;
  calls_in_range = h.calls_in_range;
}

pub counter_reset : (n : ℕ) → (if leb 3 n then 0 else n) < 3
counter_reset n = ground arith
