-- ===== src/Agc/Liveness.antt =====
-- Every frame ends: PYTHON/DEMOS/AGC_SIM_DEMO.py, agc_thread.
use mathlib.Core.Path.{subst}
use houdini_lab.Common.{
  ℕ, ◌+◌, ◌<◌, ◌≤◌, ◌≡◌, refl, ◌∙◌, true, false, some, List, [], ◌∷◌, arith, leb, ◌==◌,
  if◌then◌else◌, get_elem?, set, length, length-set, get_elem?-set_self, inl, inr, Bool-cases,
}
use houdini_lab.Common.Int.{ℤ, pos, negsuc, ltb_ℤ, ◌<ℤ◌, ◌≤ℤ◌}
use houdini_lab.Agc.State.{idle, sat_det, Agc, rssi_sat_thresh}
use houdini_lab.Agc.Gains.{ok, ◌>>=◌, ◌>>◌}
use houdini_lab.Agc.Machine.{Transitions}
use houdini_lab.Agc.Invariant.{CallsInRange-append, Inv, LeftBy, new_sample-Inv}
use houdini_lab.Agc.Frame.{begin_frame, read_sample, read_samples, run_frame, agc_thread}
use houdini_lab.Agc.Sample.{prepared, counted, counter_reset, prepared-Inv, read_sample-prepared}
use houdini_lab.Agc.Progress.{
  Phase, over, looking, tuning, Sized, Advances, over-Advances, saturated-Advances, quiet-Advances,
  tuning-Advances, started-Advances,
}

-- A reading below 0 dB, and at sample 15 one that does not saturate.
abbrev pub Fits : ℕ → ℤ → Type 0
Fits n v = (v <ℤ pos 0) × (n ≡ 15 → v ≤ℤ rssi_sat_thresh)

abbrev pub AllFit : ℕ → List ℤ → Type 0
AllFit n [] = Unit {0}
AllFit n (v ∷ vs) = Fits n v × AllFit (n + 1) vs

prepared-Sized : (n : ℕ) (v : ℤ) (s : Agc) → Sized s → Sized (prepared n v s)
prepared-Sized n v s z = (counter_reset (counted v s), length-set s.rssi n v ∙ z.1, z.2)

prepared-reading :
    (n m : ℕ) (s : Agc) → n < 20 → Sized s → get_elem? (set s.rssi n (negsuc m)) n ≡ some (negsuc m)
prepared-reading n m s lt z = get_elem?-set_self s.rssi n (negsuc m) (omega (arith, z.1))

-- Below the threshold a sample does not raise the flag.
not_flagged :
    (v : ℤ) (s : Agc) → v ≤ℤ rssi_sat_thresh → s.num_sat_samps < 3 → leb 3 (counted v s) ≡ false
not_flagged v s le lt = ground arith

flagged_early :
    (n : ℕ) (v : ℤ) (s : Agc)
    → n ≤ 15
    → Fits n v
    → s.num_sat_samps < 3
    → leb 3 (counted v s) ≡ true
    → n < 15
flagged_early n v s le fits low e = elim (Bool-cases (n == 15)) [
  | inl is ↦
      let same : n ≡ 15 = ground arith in absurd (ground (arith, not_flagged v s (fits.1 same) low))
  | inr isnt ↦ ground arith
]

good_flag :
    (n : ℕ) (s : Agc)
    → s.sat_det_good_flag ≡ false
    → (if n + 1 == 16 then true else s.sat_det_good_flag) ≡ (n + 1 == 16)
good_flag n s h = ground arith

not_yet :
    (n : ℕ) (s : Agc)
    → n < 15
    → s.sat_det_good_flag ≡ false
    → (if n + 1 == 16 then true else s.sat_det_good_flag) ≡ false
not_yet n s lt h = ground arith

looking-Advances :
    (lib : Transitions) (n : ℕ) (v : ℤ) (s : Agc)
    → s.state ≡ sat_det
    → n ≤ 15
    → s.sat_detected_flag ≡ false
    → s.sat_det_good_flag ≡ false
    → Fits n v
    → Sized s
    → Advances lib n (prepared n v s)
looking-Advances lib n v s h le flag good fits z = elim (Bool-cases (leb 3 (counted v s))) [
  | inl e ↦
      let early : n < 15 = flagged_early n v s le fits z.0 e in
      saturated-Advances lib n (prepared n v s) h early (rw e) (not_yet n s early good)
        (prepared-Sized n v s z)
  | inr e ↦
      quiet-Advances lib n (prepared n v s) h le (rw (e, flag)) (good_flag n s good)
        (prepared-Sized n v s z)
]

Phase-Advances :
    (lib : Transitions) (n : ℕ) (v : ℤ) (s : Agc)
    → n < 20
    → Phase n s
    → Fits n v
    → Sized s
    → Advances lib n (prepared n v s)
Phase-Advances lib n v s lt (over h e) fits z =
    over-Advances lib n (prepared n v s) h e (prepared-Sized n v s z)
Phase-Advances lib n v s lt (looking h le flag good) fits z =
    looking-Advances lib n v s h le flag good fits z
Phase-Advances lib n (pos m) s lt (tuning h le) fits z = absurd (omega (arith, fits.0))
Phase-Advances lib n (negsuc m) s lt (tuning h le) fits z =
    tuning-Advances lib n m (prepared n (negsuc m) s) h le (prepared-reading n m s lt z)
      (prepared-Sized n (negsuc m) s z)

-- A state between two samples: the machine's invariant, and the phase.
abbrev pub At : ℕ → Agc → Type 0
At n s = Inv s × Phase n s × Sized s

Advances-read :
    (lib : Transitions) (n : ℕ) (v : ℤ) (s : Agc)
    → n < 20
    → Inv s
    → Sized s
    → Advances lib n (prepared n v s)
    → (t : Agc) × (read_sample lib n v s ≡ ok tt t) × At (n + 1) t
Advances-read lib n v s lt i z (b, t, e, ph, sz) = (
  t,
  rw (read_sample-prepared lib n v s (omega (arith, z.1)), e, ◌>>◌, ◌>>=◌),
  (subst (LeftBy Inv) e (new_sample-Inv lib (prepared n v s) (prepared-Inv n v s i)), ph, sz),
)

read_samples-At :
    (lib : Transitions) (n m : ℕ) (vs : List ℤ) (s : Agc)
    → n + length vs ≡ m
    → m ≤ 20
    → At n s
    → AllFit n vs
    → (t : Agc) × (read_samples lib n vs s ≡ ok tt t) × At m t
unfolding read_samples
read_samples-At lib n m [] s sum le a fits = (s, refl, subst (λ k. At k s) (omega arith) a)
read_samples-At lib n m (v ∷ vs) s sum le (i, ph, z) fits =
    let (t, e, a) =
      Advances-read lib n v s (omega arith) i z
        (Phase-Advances lib n v s (omega arith) ph fits.0 z) in
    let (u, k, b) = read_samples-At lib (n + 1) m vs t (omega arith) le a fits.1 in
    (u, rw (e, ◌>>◌, ◌>>=◌) k, b)

-- The machine between two frames.
pub record Ready (s : Agc) : Type 0 where
  pub inv : Inv s
  pub at_rest : s.state ≡ idle
  pub rssi_length : length s.rssi ≡ 100
  pub fresh_length : length s.uninitialised ≡ 100

begin_frame-Inv : (s : Agc) → Inv s → Inv (begin_frame s)
unfolding begin_frame
begin_frame-Inv s h = record {
  not_waiting = h.not_waiting;
  stage_capped = h.stage_capped;
  fine_capped = h.fine_capped;
  coarse_stage = h.coarse_stage;
  coarse_total = h.coarse_total;
  coarse_first = h.coarse_first;
  idle_reset = h.idle_reset;
  calls_in_range = CallsInRange-append s.gain_calls _ h.calls_in_range (refl, tt);
}

first_low : (v : ℤ) → leb 3 (if ltb_ℤ rssi_sat_thresh v then 0 + 1 else 0) ≡ false
first_low v = ground arith

first_sample :
    (lib : Transitions) (v : ℤ) (s : Agc)
    → Ready s
    → (t : Agc) × (read_sample lib 0 v (begin_frame s) ≡ ok tt t) × At 1 t
unfolding begin_frame
first_sample lib v s r =
    let sized : Sized (begin_frame s) = (omega arith, r.rssi_length, r.fresh_length) in
    Advances-read lib 0 v (begin_frame s) (omega arith) (begin_frame-Inv s r.inv) sized (
      started-Advances lib (prepared 0 v (begin_frame s)) r.at_rest refl (rw (first_low v)) refl
        (prepared-Sized 0 v (begin_frame s) sized))

Phase-done : (s : Agc) → At 20 s → (Ready s) × (s.enable_agc_flag ≡ false)
Phase-done s (i, over h e, z) =
    (record { inv = i; at_rest = h; rssi_length = z.1; fresh_length = z.2 }, e)
Phase-done s (i, looking h le flag good, z) = absurd (omega arith)
Phase-done s (i, tuning h le, z) = absurd (omega (arith, i.fine_capped))

-- A frame of twenty readings below 0 dB ends, if reading 15 does not saturate: the call returns,
-- and the machine is idle, reset and disabled, so that the next frame finds it ready.
pub run_frame-Ready :
    (lib : Transitions) (vs : List ℤ) (s : Agc)
    → Ready s
    → length vs ≡ 20
    → AllFit 0 vs
    → (t : Agc) × (run_frame lib vs s ≡ ok tt t) × Ready t × (t.enable_agc_flag ≡ false)
unfolding run_frame read_samples
run_frame-Ready lib [] s r len fits = absurd (omega arith)
run_frame-Ready lib (v ∷ vs) s r len fits =
    let (t, e, a) = first_sample lib v s r in
    let (u, k, b) = read_samples-At lib 1 20 vs t (omega arith) (omega arith) a fits.1 in
    let (ready, off) = Phase-done u b in (u, rw (e, ◌>>◌, ◌>>=◌) k, ready, off)

abbrev pub FramesFit : List (List ℤ) → Type 0
FramesFit [] = Unit {0}
FramesFit (vs ∷ frames) = (length vs ≡ 20) × AllFit 0 vs × FramesFit frames

-- So does a run of any number of such frames.
agc_thread-Ready :
    (lib : Transitions) (frames : List (List ℤ)) (s : Agc)
    → Ready s
    → FramesFit frames
    → (t : Agc) × (agc_thread lib frames s ≡ ok tt t) × Ready t
unfolding agc_thread
agc_thread-Ready lib [] s r fits = (s, refl, r)
agc_thread-Ready lib (vs ∷ frames) s r (len, fit, rest) =
    let (t, e, ready, off) = run_frame-Ready lib vs s r len fit in
    let (u, k, z) = agc_thread-Ready lib frames t ready rest in (u, rw (e, ◌>>◌, ◌>>=◌) k, z)
