-- ===== src/Agc/Skipped.antt =====
-- A frame that starts before the last one has ended: PYTHON/DEMOS/AGC_SIM_DEMO.py, agc_thread.
use houdini_lab.Common.{
  ℕ, ◌+◌, ◌<◌, ◌≤◌, ◌≡◌, refl, ◌∙◌, false, true, List, [], ◌∷◌, ◌++◌, arith, length, length-set,
}
use houdini_lab.Common.Int.{ℤ, pos}
use houdini_lab.Agc.State.{idle, meas_pwr_wait, Agc}
use houdini_lab.Agc.State
use houdini_lab.Agc.Gains.{ok, ◌>>=◌, ◌>>◌, full_reset}
use houdini_lab.Agc.Machine.{Transitions, new_sample}
use houdini_lab.Agc.Step.{step_in-fine_done}
use houdini_lab.Agc.Frame.{begin_frame, read_sample, read_samples, run_frame}
use houdini_lab.Agc.Sample.{prepared, read_sample-prepared}
use houdini_lab.Agc.Progress.{step_in-idle, step_at}

-- At rest, with the calls that were made so far.
record Off (calls : List State.GainCall) (s : Agc) : Type 0 where
  at_rest : s.state ≡ idle
  disabled : s.enable_agc_flag ≡ false
  rssi_length : length s.rssi ≡ 100
  calls_same : s.gain_calls ≡ calls

read_sample-Off :
    (lib : Transitions) (calls : List State.GainCall) (n : ℕ) (v : ℤ) (s : Agc)
    → n < 100
    → Off calls s
    → (t : Agc) × (read_sample lib n v s ≡ ok tt t) × Off calls t
read_sample-Off lib calls n v s lt o =
    let e : new_sample lib (prepared n v s) ≡ ok false (prepared n v s) =
      step_at lib (prepared n v s) o.at_rest ∙ step_in-idle (prepared n v s) o.disabled in
    (
      prepared n v s,
      rw (read_sample-prepared lib n v s (omega (arith, o.rssi_length)), e, ◌>>◌, ◌>>=◌),
      record {
        at_rest = o.at_rest;
        disabled = o.disabled;
        rssi_length = length-set s.rssi n v ∙ o.rssi_length;
        calls_same = o.calls_same;
      },
    )

read_samples-Off :
    (lib : Transitions) (calls : List State.GainCall) (n : ℕ) (vs : List ℤ) (s : Agc)
    → n + length vs ≤ 100
    → Off calls s
    → (t : Agc) × (read_samples lib n vs s ≡ ok tt t) × Off calls t
unfolding read_samples
read_samples-Off lib calls n [] s le o = (s, refl, o)
read_samples-Off lib calls n (v ∷ vs) s le o =
    let (t, e, p) = read_sample-Off lib calls n v s (omega arith) o in
    let (u, k, q) = read_samples-Off lib calls (n + 1) vs t (omega arith) p in
    (u, rw (e, ◌>>◌, ◌>>=◌) k, q)

finish :
    (lib : Transitions) (s : Agc)
    → s.state ≡ meas_pwr_wait
    → 3 ≤ s.fine_adjust_count
    → length s.uninitialised ≡ 100
    → (t : Agc) × (new_sample lib s ≡ ok true t) × Off s.gain_calls t
unfolding full_reset
finish lib s h le fresh = (
  _,
  step_at lib s h ∙ step_in-fine_done s (ground arith) ∙ refl,
  record { at_rest = refl; disabled = refl; rssi_length = fresh; calls_same = refl },
)

unfinished_sample :
    (lib : Transitions) (v : ℤ) (s : Agc)
    → s.state ≡ meas_pwr_wait
    → 3 ≤ s.fine_adjust_count
    → length s.rssi ≡ 100
    → length s.uninitialised ≡ 100
    → (t : Agc) × (read_sample lib 0 v (begin_frame s) ≡ ok tt t)
      × Off (s.gain_calls ++ ((State.Stage.chain, pos 90) ∷ [])) t
unfolding begin_frame
unfinished_sample lib v s h le len fresh =
    let (t, e, o) = finish lib (prepared 0 v (begin_frame s)) h le fresh in
    (t, rw (read_sample-prepared lib 0 v (begin_frame s) (omega (arith, len)), e, ◌>>◌, ◌>>=◌), o)

-- If a frame starts while the machine still waits with its fine adjustments done, its first
-- sample ends the previous frame and disables the control again. Whatever is read, no gain is
-- adjusted in the new frame: its only call is the one that sets the initial gain.
pub run_frame-skipped :
    (lib : Transitions) (vs : List ℤ) (s : Agc)
    → s.state ≡ meas_pwr_wait
    → 3 ≤ s.fine_adjust_count
    → length s.rssi ≡ 100
    → length s.uninitialised ≡ 100
    → length vs ≡ 20
    → (t : Agc) × (run_frame lib vs s ≡ ok tt t)
      × (t.state ≡ idle)
      × (t.gain_calls ≡ s.gain_calls ++ ((State.Stage.chain, pos 90) ∷ []))
unfolding run_frame read_samples
run_frame-skipped lib [] s h le len fresh twenty = absurd (omega arith)
run_frame-skipped lib (v ∷ vs) s h le len fresh twenty =
    let (t, e, o) = unfinished_sample lib v s h le len fresh in
    let (u, k, q) = read_samples-Off lib _ 1 vs t (omega arith) o in
    (u, rw (e, ◌>>◌, ◌>>=◌) k, q.at_rest, q.calls_same)
