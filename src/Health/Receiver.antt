-- ===== src/Health/Receiver.antt =====
-- PYTHON/IrisUtils/iris_health_monitor.py, test_receiver. A reading is what test_a_tx_rx_pair
-- measures; powers are in thousandths of a dB.
use houdini_lab.Common.{
  ℕ, ◌+◌, Bool, true, false, ◌&&◌, ◌||◌, not, Option, none, some, List, [], ◌∷◌, ◌++◌,
  if◌then◌else◌, get_elem?,
}
use houdini_lab.Common.Int.{ℤ, leb_ℤ}
use houdini_lab.Common.Text.{Text}
use houdini_lab.Health.Result.{index_error, unbound_local_error, Result, ok, ◌>>=◌, or_raise}
use houdini_lab.Health.Irises.{Irises}
use houdini_lab.Health.Gains.{Limits, set_gain_limits, range}

pub record Reading : Type 0 where
  pub fft_pwr_db_1 : ℤ
  pub fft_pwr_db_2 : ℤ
  pub noise_floor_1 : ℤ
  pub noise_floor_2 : ℤ

-- The first column of a row; a row of a detailed log has none.
pub data Mark : Type 0 where
  passed failed unmarked : Mark

pub data Channel : Type 0 where
  a b ab : Channel

-- A row of print_results; the columns that are the same for the whole test, the temperatures and
-- the times are left out.
pub record Row : Type 0 where
  pub pf : Mark
  pub uut_iris : Text
  pub fft_pwr_db_a : ℤ
  pub fft_pwr_db_b : ℤ
  pub noise_floor_a : ℤ
  pub noise_floor_b : ℤ
  pub uut_ch : Channel
  pub uut_gain : ℕ
  pub uut_gain_lo : ℕ
  pub uut_gain_hi : ℕ

-- The variables of the sweep: `last` holds the gain and the reading of its latest turn.
pub record Sweep : Type 0 where
  pub ch_1_logged : Bool
  pub ch_2_logged : Bool
  pub last : Option (ℕ × Reading)
  pub rows : List Row

abbrev pub both : Mark → Channel → Text → ℕ → ℕ → ℕ → Reading → Row
both pf ch serial lo hi gain r = record {
  pf = pf;
  uut_iris = serial;
  fft_pwr_db_a = r.fft_pwr_db_1;
  fft_pwr_db_b = r.fft_pwr_db_2;
  noise_floor_a = r.noise_floor_1;
  noise_floor_b = r.noise_floor_2;
  uut_ch = ch;
  uut_gain = gain;
  uut_gain_lo = lo;
  uut_gain_hi = hi;
}

abbrev pub add_row : Row → List Row → List Row
add_row r rows = rows ++ (r ∷ [])

-- One channel of a reading: it is logged once, when it first reaches the limit.
abbrev pub log_1 : Bool → Row → Sweep → Sweep
log_1 reached row s =
    if reached && not s.ch_1_logged
    then record s { ch_1_logged = true; rows = add_row row s.rows }
    else s

abbrev pub log_2 : Bool → Row → Sweep → Sweep
log_2 reached row s =
    if reached && not s.ch_2_logged
    then record s { ch_2_logged = true; rows = add_row row s.rows }
    else s

abbrev pub log_if : Bool → Row → Sweep → Sweep
log_if wanted row s = if wanted then record s { rows = add_row row s.rows } else s

module _ (rx_pwr_limit : ℤ) (detailed_logs : Bool) where
  abbrev pub reached_1 : Reading → Bool
  reached_1 r = leb_ℤ rx_pwr_limit r.fft_pwr_db_1

  abbrev pub reached_2 : Reading → Bool
  reached_2 r = leb_ℤ rx_pwr_limit r.fft_pwr_db_2

  module _ (serial : Text) (lo hi : ℕ) where
    -- The two tests of one turn.
    unfoldable pub rx_turn : ℕ → Reading → Sweep → Sweep
    rx_turn gain r s = log_2 (reached_2 r) (both passed b serial lo hi gain r) (
        log_1 (reached_1 r) (both passed a serial lo hi gain r)
          (record s { last = some (gain, r) }))

    -- The turn logged a channel.
    abbrev pub turn_logged : Reading → Sweep → Bool
    turn_logged r s = (reached_1 r && not s.ch_1_logged) || (reached_2 r && not s.ch_2_logged)

    unfoldable pub rx_sweep : (ℕ → Reading) → List ℕ → Sweep → Sweep
    rx_sweep measure [] s = s
    rx_sweep measure (gain ∷ gains) s =
        let r = measure gain in
        let t = rx_turn gain r s in
        let rest = rx_sweep measure gains (
          log_if (detailed_logs && not (turn_logged r s)) (both unmarked ab serial lo hi gain r)
            t) in
        if reached_1 r && reached_2 r then t else rest

    -- The row of a channel that was never logged.
    abbrev pub fail_row : Bool → Channel → Sweep → Result (List Row)
    fail_row true ch s = ok []
    fail_row false ch s = do
      (gain, r) ← or_raise s.last unbound_local_error
      ok (both failed ch serial lo hi gain r ∷ [])

    -- A unit: whether both its channels passed, and its rows.
    unfoldable pub rx_unit : (ℕ → Reading) → List ℕ → Result (Bool × List Row)
    rx_unit measure gains =
        let s =
          rx_sweep measure gains
            (record { ch_1_logged = false; ch_2_logged = false; last = none; rows = [] }) in
        fail_row s.ch_1_logged a s >>= λ fails_1. fail_row s.ch_2_logged b s >>= λ fails_2.
        ok (s.ch_1_logged && s.ch_2_logged, s.rows ++ (fails_1 ++ fails_2))

  -- The units from i on, with the limits of the latest one.
  unfoldable pub rx_units :
      ℕ
      → ℕ
      → (ℕ → ℕ → Reading)
      → Irises
      → ℕ
      → List Text
      → Bool
      → Option Limits
      → Result (Bool × Option Limits × List Row)
  rx_units gain_step freq measure irises i [] pf latest = ok (pf, latest, [])
  rx_units gain_step freq measure irises i (serial ∷ serials) pf latest = do
    frontend ← or_raise (get_elem? irises.uut_frontends i) index_error
    sdr ← or_raise (get_elem? irises.uut_sdrs i) index_error
    gains ←
        range (set_gain_limits freq frontend).rx_lo ((set_gain_limits freq frontend).rx_hi + 1)
          gain_step
    (unit, rows) ←
        rx_unit serial (set_gain_limits freq frontend).rx_lo (set_gain_limits freq frontend).rx_hi
          (measure i) gains
    (all, limits, more) ←
        rx_units gain_step freq measure irises (i + 1) serials (pf && unit)
          (some (set_gain_limits freq frontend))
    ok (all, limits, rows ++ more)

  -- What `measure i gain` is the reading of the unit i at that gain. The limits that it returns
  -- are those of the last unit.
  unfoldable pub test_receiver :
      ℕ → ℕ → (ℕ → ℕ → Reading) → Irises → Result (Bool × ℕ × ℕ × List Row)
  test_receiver gain_step freq measure irises = do
    (pf, latest, rows) ← rx_units gain_step freq measure irises 0 irises.uut_serials true none
    limits ← or_raise latest unbound_local_error
    ok (pf, limits.rx_lo, limits.rx_hi, rows)
