-- ===== src/Mimo/Lifecycle.antt =====
-- MATLAB/iris_py.py: the life of an Iris_py object, from its constructor to close.
use houdini_lab.Mimo.Receive.{
  Read, recv_stream_tdd, read_times, count_receive, recv_count, receive_slots,
}
use houdini_lab.Mimo.Tdd.{
  TddArgs, burn_beacon, burn_data_complex, burn_data, config_sdr_tdd, keep_args,
  config_base_station, config_client,
}
use houdini_lab.Mimo.Iris.{
  set_trigger, close, set_corr, close_device, sdr_gettriggers, drop_stream, unset_corr,
  sdr_setrxfreq, sdr_settxfreq, retune, sdr_settxgain, sdr_setrxgain, config_gain_ctrl,
  sync_delays_of, reset_hw_time, setup_stream_rx, activate_stream_rx, has_device,
}
use houdini_lab.Common.{
  none, ℕ, List, Option, Bool, ◌≡◌, true, [], false, arith, some, if◌then◌else◌, refl, ◌∷◌, ◌++◌,
  Option-cases, not, ◌⊎◌, inl, inr, suc, zero,
}
use houdini_lab.Mimo.Samples.{Samples}
use houdini_lab.Mimo.Calls.{
  Call, M, Iris, done, calls_of, ◌>>=◌, ◌>>◌, return, deactivate_stream, close_stream,
  write_setting, reset_data_logic, tdd_config, stopped, agc_config, Run, after, raised, Slot,
}

-- A call of a method, with its arguments.
pub data Method (np : Samples) : Type 0 where
  trigger : Method np
  correlate : Method np
  triggers : ℕ → Method np
  uncorrelate : ℕ → Method np
  rx_frequency : ℕ → Method np
  tx_frequency : ℕ → Method np
  tx_gain_of : ℕ → Method np
  rx_gain_of : ℕ → Method np
  gain_control : Method np
  delays : Method np
  reset_time : Method np
  set_up_stream : Method np
  start_stream : Method np
  beacon_to_ram : List ℕ → List ℕ → Method np
  data_to_ram : List np.Sample → Option (List np.Sample) → ℕ → Method np
  sum_to_ram : Option (List np.Sample) → ℕ → Method np
  configure : Bool → TddArgs → Method np
  receive : (ℕ → Read np) → Method np
  shut : Method np

abbrev still_closed : {A : Type 0} → Run A → Bool
still_closed (done a s cs) = not s.is_open
still_closed (raised cs) = true

-- The run has called nothing, and has not opened the object.
abbrev IsQuiet : {A : Type 0} → Run A → Type 0
IsQuiet run = (calls_of run ≡ []) × (still_closed run ≡ true)

-- So does every run on a closed object.
abbrev Quiet : {A : Type 0} → M A → Type 0
Quiet m = (s : Iris) → s.is_open ≡ false → IsQuiet (m s)

bound-IsQuiet :
    {A B : Type 0} (run : Run A) (f : A → M B)
    → IsQuiet run
    → ((a : A) → Quiet (f a))
    → IsQuiet (elim run [ done a s' cs ↦ after cs (f a s') | raised cs ↦ raised cs ])
bound-IsQuiet (raised cs) f h rest = h
bound-IsQuiet (done a s cs) f (h, closed) rest =
    let closed' : s.is_open ≡ false = ground arith in rw h (quiet_after (f a s) (rest a s closed'))
  where
    quiet_after : {B : Type 0} (run : Run B) → IsQuiet run → IsQuiet (after [] run)
    quiet_after (raised cs) h = h
    quiet_after (done b s cs) h = h

>>=-Quiet :
    {A B : Type 0} (m : M A) (f : A → M B) → Quiet m → ((a : A) → Quiet (f a)) → Quiet (m >>= f)
>>=-Quiet m f quiet rest s h = bound-IsQuiet (m s) f (quiet s h) rest

return-Quiet : {A : Type 0} (a : A) → Quiet (return a)
return-Quiet a s h = (refl, rw h refl)

read_times-closed :
    (n : ℕ) (s : Iris)
    → s.is_open ≡ false
    → (read_times n s ≡ done tt s []) ⊎ (read_times n s ≡ raised [])
unfolding read_times
read_times-closed zero s h = inl refl
read_times-closed (suc n) s h = inr (rw h refl)

module _ (np : Samples) (beacon : List np.Sample) where
  unfoldable pub run_method : Method np → M (Unit {0})
  run_method trigger = set_trigger
  run_method correlate = set_corr
  run_method (triggers ticks) = do t ← sdr_gettriggers ticks; return tt
  run_method (uncorrelate register) = unset_corr register
  run_method (rx_frequency f) = sdr_setrxfreq f
  run_method (tx_frequency f) = sdr_settxfreq f
  run_method (tx_gain_of v) = sdr_settxgain v
  run_method (rx_gain_of v) = sdr_setrxgain v
  run_method gain_control = config_gain_ctrl
  run_method delays = sync_delays_of
  run_method reset_time = reset_hw_time
  run_method set_up_stream = setup_stream_rx
  run_method start_stream = activate_stream_rx
  run_method (beacon_to_ram wa wb) = burn_beacon np beacon wa wb
  run_method (data_to_ram xs ys addr) = burn_data_complex np xs ys addr
  run_method (sum_to_ram xs addr) = burn_data np xs addr
  run_method (configure is_bs o) = config_sdr_tdd np beacon is_bs o
  run_method (receive reads) = do got ← recv_stream_tdd np reads; return tt
  run_method shut = close

  slots-Quiet :
      (reads : ℕ → Read np) (len : ℕ) (slots : List Slot) → Quiet (receive_slots np reads len slots)
  unfolding receive_slots
  slots-Quiet reads len slots s h =
      elim (read_times-closed (recv_count np reads len (count_receive slots) s.max_frames) s h) [
        | inl q ↦ (ground (arith, q), ground (arith, q))
        | inr q ↦ (ground (arith, q), ground (arith, q))
      ]

  receive-Quiet : (reads : ℕ → Read np) → Quiet (run_method (receive reads))
  unfolding run_method recv_stream_tdd
  receive-Quiet reads s h = elim (Option-cases s.n_samp) [
    | inl e ↦ (ground (arith, e), ground (arith, e))
    | inr (len, e) ↦ elim (Option-cases s.tdd_sched) [
      | inl e' ↦ (ground (arith, e, e'), ground (arith, e, e'))
      | inr (slots, e') ↦
          let (quiet, closed) = slots-Quiet reads len slots s h in
          (ground (arith, e, e', quiet), ground (arith, e, e', closed))
    ]
  ]

  -- No method of a closed object calls the device, or opens it.
  closed_calls : (m : Method np) (s : Iris) → s.is_open ≡ false → IsQuiet (run_method m s)
  unfolding run_method set_trigger set_corr sdr_gettriggers unset_corr sdr_setrxfreq sdr_settxfreq
      retune sdr_settxgain sdr_setrxgain config_gain_ctrl sync_delays_of reset_hw_time
      setup_stream_rx activate_stream_rx burn_beacon burn_data_complex burn_data config_sdr_tdd
      keep_args config_base_station config_client close has_device
  closed_calls trigger s h = (ground arith, ground arith)
  closed_calls correlate s h = (ground arith, ground arith)
  closed_calls (triggers ticks) s h = (ground arith, ground arith)
  closed_calls (uncorrelate register) s h = (ground arith, ground arith)
  closed_calls (rx_frequency f) s h = (ground arith, ground arith)
  closed_calls (tx_frequency f) s h = (ground arith, ground arith)
  closed_calls (tx_gain_of v) s h = (ground arith, ground arith)
  closed_calls (rx_gain_of v) s h = (ground arith, ground arith)
  closed_calls gain_control s h = (ground arith, ground arith)
  closed_calls delays s h = (ground arith, ground arith)
  closed_calls reset_time s h = (ground arith, ground arith)
  closed_calls set_up_stream s h = (ground arith, ground arith)
  closed_calls start_stream s h = (ground arith, ground arith)
  closed_calls (beacon_to_ram wa wb) s h = (ground arith, ground arith)
  closed_calls (data_to_ram xs ys addr) s h = (ground arith, ground arith)
  closed_calls (sum_to_ram none addr) s h = (refl, refl)
  closed_calls (sum_to_ram (some xs) addr) s h = (ground arith, ground arith)
  closed_calls (configure true o) s h = (ground arith, ground arith)
  closed_calls (configure false o) s h = (ground arith, ground arith)
  closed_calls (receive reads) s h = receive-Quiet reads s h
  closed_calls shut s h = (ground arith, ground arith)

  -- Calls of methods in their order, up to an exception.
  unfoldable pub run_methods : List (Method np) → M (Unit {0})
  run_methods [] = return tt
  run_methods (m ∷ ms) = do run_method m; run_methods ms

  run_methods-Quiet : (ms : List (Method np)) → Quiet (run_methods ms)
  unfolding run_methods
  run_methods-Quiet [] = return-Quiet tt
  run_methods-Quiet (m ∷ ms) =
      >>=-Quiet (run_method m) (λ t. run_methods ms) (closed_calls m) (λ t. run_methods-Quiet ms)

  -- What close ends: each stream that is there, and the schedule and the gain control.
  abbrev pub last_calls : Iris → List Call
  last_calls s =
      (if s.tx_stream then deactivate_stream ∷ close_stream ∷ [] else [])
      ++ ((if s.rx_stream then deactivate_stream ∷ close_stream ∷ [] else [])
          ++ write_setting reset_data_logic
            ∷ write_setting (tdd_config stopped)
            ∷ write_setting (agc_config false)
            ∷ [])

  -- Closing an open object ends the streams that are there, in order, and then the schedule and the
  -- gain control; from then on no sequence of methods, close included, calls the device.
  pub close-final :
      (s : Iris)
      → s.is_open ≡ true
      → (s' : Iris) × (close s ≡ done tt s' (last_calls s))
        × ((ms : List (Method np)) → calls_of (run_methods ms s') ≡ [])
  unfolding close close_device drop_stream
  close-final s h = (
    record s { is_open = false; tx_stream = false; rx_stream = false },
    ground arith,
    λ ms. (run_methods-Quiet ms _ refl).0,
  )
