-- ===== src/Mimo/Tdd.antt =====
-- MATLAB/iris_py.py: config_sdr_tdd and the writes of samples to the memories of the FPGA.
pub mod Start
use Prim.Native.Nat.{bit_or}
use houdini_lab.Common.{
  ℕ, zero, suc, ◌+◌, ◌/◌, ◌%◌, Bool, true, false, Option, none, some, List, map, length,
}
use houdini_lab.Common.Bits.{shift}
use houdini_lab.Mimo.Calls.{
  Slot, base_station, client, tdd_config, corr_config, beacon_start, tx_sw_delay, tdd_mode,
  corr_coe, beacon_ram, beacon_weights_a, beacon_weights_b, tx_ram_a, tx_ram_b, write_setting,
  write_registers, set_trigger_time, M, ◌>>=◌, ◌>>◌, return, fail, call, modify, get, given,
}
use houdini_lab.Mimo.Samples.{qi, Samples}

-- `(sf_start << 16) | sp_start` of a time in samples; a symbol of no samples divides by 0.
unfoldable pub symbol_time : ℕ → ℕ → Option ℕ
symbol_time time zero = none
symbol_time time (suc n) = some (bit_or (shift (time / suc n) 16) (time % suc n))

-- The settings of the two sides after the dictionaries.
unfoldable pub start_tdd : M (Unit {0})
start_tdd = do call (write_setting (tx_sw_delay 30)); call (write_setting tdd_mode)

pub record TddArgs : Type 0 where
  pub schedule : List Slot
  pub samples : ℕ
  pub prefix : ℕ
  pub frames : ℕ
  pub dual : Bool

module _ (np : Samples) (beacon : List np.Sample) where
  unfoldable pub keep_args : TddArgs → M (Unit {0})
  keep_args o =
      modify λ s. record s {
        n_samp = some o.samples;
        tdd_sched = some o.schedule;
        max_frames = o.frames;
      }

  unfoldable pub config_base_station : TddArgs → M (Unit {0})
  config_base_station o = call (
      write_setting (
        tdd_config
          (base_station o.samples o.frames o.prefix (o.prefix + length beacon) o.dual o.schedule)))

  unfoldable pub config_client : TddArgs → M (Unit {0})
  config_client o = do
    call (write_setting (tdd_config (client o.samples o.schedule)))
    call (write_setting (corr_config 1))
    call (write_registers corr_coe 0 (map (λ x. np.to_word qi (np.conj x)) beacon))
    offset ← get (λ s. s.trig_offset)
    time ← given (symbol_time (length beacon + offset) o.samples)
    rate ← get (λ s. s.sample_rate)
    r ← given rate
    call (set_trigger_time time r)

  unfoldable pub config_sdr_tdd : Bool → TddArgs → M (Unit {0})
  unfolding keep_args config_base_station config_client start_tdd
  config_sdr_tdd is_bs o = do
    keep_args o
    elim is_bs [ true ↦ config_base_station o | false ↦ config_client o ]
    start_tdd

  unfoldable pub burn_beacon : List ℕ → List ℕ → M (Unit {0})
  burn_beacon weights_a weights_b = do
    call (write_registers beacon_ram 0 (map (np.to_word qi) beacon))
    call (write_registers beacon_weights_a 0 weights_a)
    call (write_registers beacon_weights_b 0 weights_b)
    call (write_setting (beacon_start 2))

module _ (np : Samples) where
  unfoldable pub burn_data_complex : List np.Sample → Option (List np.Sample) → ℕ → M (Unit {0})
  burn_data_complex a b replay_addr = do
    call (write_registers tx_ram_a replay_addr (map (np.to_word qi) a))
    elim b [
      | none ↦ return tt
      | some ys ↦ call (write_registers tx_ram_b replay_addr (map (np.to_word qi) ys))
    ]

  -- `data`, the sum of the two parts, is bound only where `data_i` is given.
  unfoldable pub burn_data : Option (List np.Sample) → ℕ → M (Unit {0})
  burn_data none replay_addr = fail
  burn_data (some sum) replay_addr =
      call (write_registers tx_ram_a replay_addr (map (np.to_word qi) sum))
