-- ===== src/Health/Session.antt =====
-- PYTHON/IrisUtils/iris_health_monitor.py, iris_health_monitor: the whole test.
use houdini_lab.Common.{ℕ, Bool, ◌&&◌, ◌||◌, not, Option, none, some, List, if◌then◌else◌}
use houdini_lab.Common.Int.{ℤ}
use houdini_lab.Common.Text.{Text}
use houdini_lab.Health.Result.{unbound_local_error, Result, ok, ◌>>=◌, or_raise}
use houdini_lab.Health.Irises.{Sdr, Irises, prepare_irises}
use houdini_lab.Health.Receiver.{Reading, Channel, Row, test_receiver}
use houdini_lab.Health.Transmitter.{test_transmitter}

-- The arguments of the command line; the names of the two logs hold the time of the test.
pub record Options : Type 0 where
  pub en_logging : Bool
  pub freq : ℕ
  pub uut_serials : List Text
  pub golden_serial : Text
  pub gain_step : ℕ
  pub golden_ant : Text
  pub rx_pwr_limit : ℤ
  pub rm_from_uut_serials : List Text
  pub detailed_logs : Bool
  pub test_tx_only : Bool
  pub test_rx_only : Bool
  pub rx_name : Text
  pub tx_name : Text

-- The local variables that a test sets, none while one has no value.
pub record Locals : Type 0 where
  pub pf : Option Bool
  pub log_name : Option Text
  pub rows : List Row

-- What the radios measure.
pub record Radios : Type 0 where
  pub network : List Sdr
  pub open_sdr : Text → Option Sdr
  pub receive : ℕ → ℕ → Reading
  pub transmit : ℕ → Channel → ℕ → Reading

-- What disp_params prints of the results: the verdicts of the tests that were asked for, and the
-- names of their logs.
pub record Report : Type 0 where
  pub receiver : Option Bool
  pub transmitter : Option Bool
  pub receiver_log : Option Text
  pub transmitter_log : Option Text

abbrev pub unset : Locals
unset = record { pf = none; log_name = none; rows = List.[] }

abbrev pub runs_rx : Options → Bool
runs_rx o = o.test_rx_only || (not o.test_tx_only && not o.test_rx_only)

abbrev pub runs_tx : Options → Bool
runs_tx o = o.test_tx_only || (not o.test_tx_only && not o.test_rx_only)

abbrev pub logged : Bool → Text → Option Text
logged en_logging name = if en_logging then some name else none

unfoldable pub receiver_part : Options → Radios → Irises → Result Locals
receiver_part o radios irises =
    test_receiver o.rx_pwr_limit o.detailed_logs o.gain_step o.freq radios.receive irises
    >>= λ (pf, lo, hi, rows).
        ok (record { pf = some pf; log_name = logged o.en_logging o.rx_name; rows = rows })

unfoldable pub transmitter_part : Options → Radios → Irises → Result Locals
transmitter_part o radios irises =
    test_transmitter o.rx_pwr_limit o.detailed_logs o.golden_ant o.gain_step o.freq radios.transmit
      irises
    >>= λ (pf, lo, hi, rows).
        ok (record { pf = some pf; log_name = logged o.en_logging o.tx_name; rows = rows })

-- The call evaluates its four arguments; what it prints depends on the options.
unfoldable pub disp_params : Options → Locals → Locals → Result Report
disp_params o rx tx = do
  pf_rx ← or_raise rx.pf unbound_local_error
  pf_tx ← or_raise tx.pf unbound_local_error
  log_name_rx ← or_raise rx.log_name unbound_local_error
  log_name_tx ← or_raise tx.log_name unbound_local_error
  ok (record {
    receiver = if runs_rx o then some pf_rx else none;
    transmitter = if runs_tx o then some pf_tx else none;
    receiver_log = if runs_rx o && o.en_logging then some log_name_rx else none;
    transmitter_log = if runs_tx o && o.en_logging then some log_name_tx else none;
  })

unfoldable pub iris_health_monitor : Options → Radios → Result Report
iris_health_monitor o radios = do
  irises ←
      prepare_irises radios.network radios.open_sdr o.uut_serials o.golden_serial
        o.rm_from_uut_serials
  rx ← (if runs_rx o then receiver_part o radios irises else ok unset)
  tx ← (if runs_tx o then transmitter_part o radios irises else ok unset)
  disp_params o rx tx
