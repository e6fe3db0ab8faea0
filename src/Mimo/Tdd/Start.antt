-- ===== src/Mimo/Tdd/Start.antt =====
-- MATLAB/iris_py.py, config_sdr_tdd: the start of a client's schedule after the beacon.
use houdini_lab.Mimo.Calls.{
  Iris, calls_of, write_setting, tdd_config, client, corr_config, write_registers, corr_coe,
  set_trigger_time, tx_sw_delay, tdd_mode,
}
use Prim.Native.Nat.{bit_or}
use native.Mathlib.Nat.{mod-lt, div-add-mod'}
use houdini_lab.Common.{
  refl, ◌%◌, ◌/◌, ◌*◌, ◌+◌, ◌-◌, ◌≤◌, ◌<◌, ◌≡◌, ◌∙◌, ◌∷◌, ℕ, suc, ◌≡◌, ◌≤◌, some, ◌/◌, ◌*◌, ◌+◌,
  ◌%◌, arith, List, ap, true, false, map, [], length, sym,
}
use houdini_lab.Common.Bits.{shift, shift-bit_or, shift_sixteen}
use houdini_lab.Mimo.Samples.{Samples, qi}
use houdini_lab.Mimo.Tdd.{symbol_time, config_sdr_tdd, TddArgs, config_client, start_tdd, keep_args}

shift_one : shift 1 16 ≡ 65536
shift_one = shift_sixteen 1

halves : (q r w : ℕ) → w ≡ 65536 * q + r → r < 65536 → (w / 65536 ≡ q) × (w % 65536 ≡ r)
halves q r w e h = (omega arith, omega arith)

-- The two halves of the word are the symbol and the sample.
symbol_time_halves :
    (time n : ℕ)
    → n ≤ 65535
    → (w : ℕ) × (symbol_time time (suc n) ≡ some w)
      × (w / 65536 * suc n + w % 65536 ≡ time)
      × (w % 65536 < suc n)
unfolding symbol_time
symbol_time_halves time n h =
    let rest = mod-lt time {m = suc n} (omega arith) in
    let small : time % suc n < shift 1 16 = omega (arith, rest, shift_one) in
    let w = bit_or (shift (time / suc n) 16) (time % suc n) in
    let sum : w ≡ 65536 * (time / suc n) + time % suc n =
      omega (
        arith,
        shift-bit_or 16 (time / suc n) (time % suc n) small,
        shift_sixteen (time / suc n),
      ) in
    let (hi, lo) = halves (time / suc n) (time % suc n) w sum (omega arith) in
    (
      w,
      refl,
      ap (λ v. v * suc n + w % 65536) hi
          ∙ ap (λ v. time / suc n * suc n + v) lo
          ∙ div-add-mod' time (suc n),
      omega (arith, lo, rest),
    )

module _ (np : Samples) (beacon : List np.Sample) where
  -- On an open client with a rate, and with symbols of 1 to 65536 samples, the calls are in this
  -- order the schedule, the correlator's settings and coefficients, the trigger time, and the two
  -- settings that start it. The trigger time is that of a number of ticks at the client's rate. The
  -- upper part of that number counts whole symbols and its lower 16 bits the samples of the next one,
  -- together the length of the beacon and the offset of the trigger.
  pub config_sdr_tdd-client :
      (o : TddArgs) (s : Iris) (rate : ℕ)
      → s.is_open ≡ true
      → s.sample_rate ≡ some rate
      → 0 < o.samples
      → o.samples ≤ 65536
      → (w : ℕ) × (calls_of (config_sdr_tdd np beacon false o s)
          ≡ write_setting (tdd_config (client o.samples o.schedule))
            ∷ write_setting (corr_config 1)
            ∷ write_registers corr_coe 0 (map (λ x. np.to_word qi (np.conj x)) beacon)
            ∷ set_trigger_time w rate
            ∷ write_setting (tx_sw_delay 30)
            ∷ write_setting tdd_mode
            ∷ [])
        × (w / 65536 * o.samples + w % 65536 ≡ length beacon + s.trig_offset)
        × (w % 65536 < o.samples)
  unfolding config_sdr_tdd config_client start_tdd keep_args
  config_sdr_tdd-client o s rate up has_rate pos small =
      let (w, e, sum, below) =
        symbol_time_halves (length beacon + s.trig_offset) (o.samples - 1) (omega arith) in
      let whole : suc (o.samples - 1) ≡ o.samples = omega arith in
      let e' = ap (symbol_time (length beacon + s.trig_offset)) (sym whole) ∙ e in
      (w, ground arith, ap (λ v. w / 65536 * v + w % 65536) (sym whole) ∙ sum, omega arith)
