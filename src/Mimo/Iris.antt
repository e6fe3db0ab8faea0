-- ===== src/Mimo/Iris.antt =====
-- MATLAB/iris_py.py: the class Iris_py. numpy's samples are the interface `Samples`; what the
-- device answers (ticks, registers) is an argument.
use Prim.Native.Nat.{bit_and}
use houdini_lab.Common.{ℕ, ◌*◌, ◌/◌, ◌^◌, Bool, true, false, not, Option, none, some}
use houdini_lab.Common.Int.{sub_ℕ}
use houdini_lab.Mimo.Calls.{
  Direction, tx, rx, stopped, reset_data_logic, disable_channel, trigger_gen, corr_start,
  sync_delays, tdd_config, tpc_disabled, agc_config, set_sample_rate, set_bandwidth, set_gain,
  set_rf, set_bb, set_antenna_trx, set_dc_offset_mode, write_setting, write_register,
  set_hardware_time, setup_stream, activate_stream, deactivate_stream, close_stream, Iris, Run, M,
  ◌>>=◌, ◌>>◌, return, fail, call, when, modify, get, given, get_hardware_time,
}

-- The arguments of the constructor; `both_channels` is the truth of that argument.
pub record Settings : Type 0 where
  pub has_serial : Bool
  pub tx_freq : Option ℕ
  pub rx_freq : Option ℕ
  pub tx_gain : Option ℕ
  pub rx_gain : Option ℕ
  pub bw : Option ℕ
  pub rate : Option ℕ
  pub samples : Option ℕ
  pub both_channels : Bool
  pub agc : Bool
  pub offset : ℕ

abbrev pub if_given : {A : Type 0} → Option A → (A → M (Unit {0})) → M (Unit {0})
if_given none f = return tt
if_given (some a) f = f a

-- `bw`, or 2.5 times the sample rate.
unfoldable pub bandwidth : Settings → M ℕ
bandwidth o = elim o.bw [ some w ↦ return (4 * w) | none ↦ do r ← given o.rate; return (10 * r) ]

unfoldable pub tune : Direction → ℕ → ℕ → Option ℕ → M (Unit {0})
tune d chan f rate = do
  r ← given rate
  call (set_rf d chan (sub_ℕ (4 * f) (3 * r)))
  call (set_bb d chan (3 * r))

-- The settings of one channel in one direction, up to its frequencies.
unfoldable pub set_up_direction : Direction → ℕ → Settings → Option ℕ → Option ℕ → M (Unit {0})
unfolding bandwidth tune
set_up_direction d chan o gain freq = do
  if_given o.rate (λ r. call (set_sample_rate d chan (4 * r)))
  w ← bandwidth o
  call (set_bandwidth d chan w)
  if_given gain (λ v. call (set_gain d chan v))
  if_given freq (λ f. tune d chan f o.rate)

unfoldable pub set_up_channel : Settings → ℕ → M (Unit {0})
unfolding set_up_direction
set_up_channel o chan = do
  set_up_direction tx chan o o.tx_gain o.tx_freq
  set_up_direction rx chan o o.rx_gain o.rx_freq
  call (set_antenna_trx chan)
  v ← (elim o.agc [ true ↦ return 100 | false ↦ given o.rx_gain ])
  call (set_gain rx chan v)
  call (set_dc_offset_mode chan)

abbrev fresh : Settings → Iris
fresh o = record {
  is_open = o.has_serial;
  sample_rate = o.rate;
  trig_offset = o.offset;
  n_samp = o.samples;
  agc_en = o.agc;
  max_frames = 1;
  tdd_sched = none;
  tx_stream = false;
  rx_stream = false;
}

-- `getHardwareInfo` raises where there is no device.
unfoldable pub has_device : M (Unit {0})
has_device = do o ← get (λ s. s.is_open); elim o [ true ↦ return tt | false ↦ fail ]

unfoldable pub set_up : Settings → M (Unit {0})
unfolding set_up_channel has_device
set_up o = do
  has_device
  set_up_channel o 0
  set_up_channel o 1
  call (write_setting reset_data_logic)
  when (not o.both_channels)
      do call (write_setting (disable_channel rx 1)); call (write_setting (disable_channel tx 1))

-- `Iris_py(...)`
unfoldable pub init : Settings → Run (Unit {0})
init o = set_up o (fresh o)

unfoldable pub set_trigger : M (Unit {0})
set_trigger = call (write_setting trigger_gen)

unfoldable pub set_corr : M (Unit {0})
set_corr = call (write_setting corr_start)

-- The hardware time in ticks has the number of triggers in its upper half.
unfoldable pub sdr_gettriggers : ℕ → M ℕ
sdr_gettriggers ticks = do
  call get_hardware_time
  rate ← get (λ s. s.sample_rate)
  r ← given rate
  return (ticks / 2 ^ 32)

unfoldable pub unset_corr : ℕ → M (Unit {0})
unset_corr register = call (write_register 60 (bit_and register 0xFFFE))

unfoldable pub retune : Direction → ℕ → ℕ → M (Unit {0})
retune d chan f = do
  rate ← get (λ s. s.sample_rate)
  r ← given rate
  call (set_rf d chan (sub_ℕ (4 * f) (3 * r)))

unfoldable pub sdr_setrxfreq : ℕ → M (Unit {0})
unfolding retune
sdr_setrxfreq f = do retune rx 0 f; retune rx 1 f

unfoldable pub sdr_settxfreq : ℕ → M (Unit {0})
unfolding retune
sdr_settxfreq f = do retune tx 0 f; retune tx 1 f

unfoldable pub sdr_settxgain : ℕ → M (Unit {0})
sdr_settxgain v = do call (set_gain tx 0 v); call (set_gain tx 1 v)

unfoldable pub sdr_setrxgain : ℕ → M (Unit {0})
sdr_setrxgain v = do call (set_gain rx 0 v); call (set_gain rx 1 v)

unfoldable pub config_gain_ctrl : M (Unit {0})
config_gain_ctrl = do
  call (write_setting tpc_disabled)
  agc ← get (λ s. s.agc_en)
  call (write_setting (agc_config agc))

unfoldable pub sync_delays_of : M (Unit {0})
sync_delays_of = call (write_setting sync_delays)

unfoldable pub reset_hw_time : M (Unit {0})
reset_hw_time = call (set_hardware_time 0)

unfoldable pub setup_stream_rx : M (Unit {0})
setup_stream_rx = do call setup_stream; modify (λ s. record s { rx_stream = true })

unfoldable pub activate_stream_rx : M (Unit {0})
activate_stream_rx = call activate_stream

-- A stream that is there is deactivated, closed and forgotten.
unfoldable pub drop_stream : Bool → (Iris → Iris) → M (Unit {0})
drop_stream there forget = when there do call deactivate_stream; call close_stream; modify forget

unfoldable pub close_device : M (Unit {0})
unfolding drop_stream
close_device = do
  has_tx ← get (λ s. s.tx_stream)
  drop_stream has_tx (λ s. record s { tx_stream = false })
  has_rx ← get (λ s. s.rx_stream)
  drop_stream has_rx (λ s. record s { rx_stream = false })
  call (write_setting reset_data_logic)
  call (write_setting (tdd_config stopped))
  call (write_setting (agc_config false))
  modify (λ s. record s { is_open = false })

unfoldable pub close : M (Unit {0})
unfolding close_device
close = do o ← get (λ s. s.is_open); when o close_device
