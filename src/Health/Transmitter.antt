-- ===== src/Health/Transmitter.antt =====
-- PYTHON/IrisUtils/iris_health_monitor.py, test_transmitter: each channel of each unit transmits,
-- and the golden Iris receives on one antenna.
use houdini_lab.Common.{
  ℕ, ◌+◌, Bool, true, false, ◌&&◌, not, Option, none, some, List, [], ◌∷◌, ◌++◌, if◌then◌else◌,
  get_elem?,
}
use houdini_lab.Common.Int.{ℤ, pos}
use houdini_lab.Common.Text.{Text, codes, text_eq}
use houdini_lab.Health.Result.{index_error, unbound_local_error, Result, ok, ◌>>=◌, or_raise}
use houdini_lab.Health.Irises.{Irises}
use houdini_lab.Health.Gains.{Limits, set_gain_limits, range}
use houdini_lab.Health.Receiver.{
  Reading, Mark, passed, failed, unmarked, Channel, a, b, Row, Sweep, add_row, reached_1, reached_2,
  log_if,
}

-- The row has the power on the golden antenna and 0 for the other one.
abbrev pub only_a : Mark → Channel → Text → ℕ → ℕ → ℕ → Reading → Row
only_a pf ch serial lo hi gain r = record {
  pf = pf;
  uut_iris = serial;
  fft_pwr_db_a = r.fft_pwr_db_1;
  fft_pwr_db_b = pos 0;
  noise_floor_a = r.noise_floor_1;
  noise_floor_b = pos 0;
  uut_ch = ch;
  uut_gain = gain;
  uut_gain_lo = lo;
  uut_gain_hi = hi;
}

abbrev pub only_b : Mark → Channel → Text → ℕ → ℕ → ℕ → Reading → Row
only_b pf ch serial lo hi gain r = record {
  pf = pf;
  uut_iris = serial;
  fft_pwr_db_a = pos 0;
  fft_pwr_db_b = r.fft_pwr_db_2;
  noise_floor_a = pos 0;
  noise_floor_b = r.noise_floor_2;
  uut_ch = ch;
  uut_gain = gain;
  uut_gain_lo = lo;
  uut_gain_hi = hi;
}

module _ (rx_pwr_limit : ℤ) (detailed_logs : Bool) (golden_ant : Text) where
  abbrev pub on_a : Bool
  on_a = text_eq golden_ant (codes "A")

  abbrev pub on_b : Bool
  on_b = text_eq golden_ant (codes "B")

  module _ (serial : Text) (lo hi : ℕ) (tx_ant : Channel) where
    unfoldable pub tx_sweep : (ℕ → Reading) → List ℕ → Sweep → Sweep
    tx_sweep measure [] s = s
    tx_sweep measure (gain ∷ gains) s =
        let r = measure gain in
        let t : Sweep = record s { last = some (gain, r) } in
        let rest = tx_sweep measure gains (
          log_if (detailed_logs && on_b) (only_b unmarked tx_ant serial lo hi gain r)
            (log_if (detailed_logs && on_a) (only_a unmarked tx_ant serial lo hi gain r) t)) in
        if on_a && reached_1 rx_pwr_limit detailed_logs r
        then record t {
          ch_1_logged = true;
          rows = add_row (only_a passed tx_ant serial lo hi gain r) t.rows;
        }
        else if on_b && reached_2 rx_pwr_limit detailed_logs r
        then record t {
          ch_2_logged = true;
          rows = add_row (only_b passed tx_ant serial lo hi gain r) t.rows;
        }
        else rest

    -- The failures after the sweep.
    abbrev pub tx_fail :
        Bool → (Mark → Channel → Text → ℕ → ℕ → ℕ → Reading → Row) → Sweep → Result (List Row)
    tx_fail false row s = ok []
    tx_fail true row s = do
      (gain, r) ← or_raise s.last unbound_local_error
      ok (row failed tx_ant serial lo hi gain r ∷ [])

    -- A channel of a unit: whether it kept `pf`, and its rows.
    unfoldable pub tx_channel : (ℕ → Reading) → List ℕ → Result (Bool × List Row)
    tx_channel measure gains =
        let s =
          tx_sweep measure gains
            (record { ch_1_logged = false; ch_2_logged = false; last = none; rows = [] }) in
        tx_fail (on_a && not s.ch_1_logged) only_a s >>= λ fails_1.
        tx_fail (on_b && not s.ch_2_logged) only_b s >>= λ fails_2. ok (
          not (on_a && not s.ch_1_logged) && not (on_b && not s.ch_2_logged),
          s.rows ++ (fails_1 ++ fails_2),
        )

  -- The units from i on, with the limits of the latest one.
  unfoldable pub tx_units :
      ℕ
      → ℕ
      → (ℕ → Channel → ℕ → Reading)
      → Irises
      → ℕ
      → List Text
      → Bool
      → Option Limits
      → Result (Bool × Option Limits × List Row)
  tx_units gain_step freq measure irises i [] pf latest = ok (pf, latest, [])
  tx_units gain_step freq measure irises i (serial ∷ serials) pf latest = do
    frontend ← or_raise (get_elem? irises.uut_frontends i) index_error
    gains ←
        range (set_gain_limits freq frontend).tx_lo ((set_gain_limits freq frontend).tx_hi + 1)
          gain_step
    sdr ← or_raise (get_elem? irises.uut_sdrs i) index_error
    (one, rows) ←
        tx_channel serial (set_gain_limits freq frontend).tx_lo
          (set_gain_limits freq frontend).tx_hi a (measure i a) gains
    (two, rows') ←
        tx_channel serial (set_gain_limits freq frontend).tx_lo
          (set_gain_limits freq frontend).tx_hi b (measure i b) gains
    (all, limits, more) ←
        tx_units gain_step freq measure irises (i + 1) serials ((pf && one) && two)
          (some (set_gain_limits freq frontend))
    ok (all, limits, rows ++ (rows' ++ more))

  -- `measure i ch gain` is the reading while the unit i transmits on that channel.
  unfoldable pub test_transmitter :
      ℕ → ℕ → (ℕ → Channel → ℕ → Reading) → Irises → Result (Bool × ℕ × ℕ × List Row)
  test_transmitter gain_step freq measure irises = do
    (pf, latest, rows) ← tx_units gain_step freq measure irises 0 irises.uut_serials true none
    limits ← or_raise latest unbound_local_error
    ok (pf, limits.tx_lo, limits.tx_hi, rows)
