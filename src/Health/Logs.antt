-- ===== src/Health/Logs.antt =====
-- PYTHON/IrisUtils/iris_health_monitor.py, process_rx_log and process_tx_log: the logs are read
-- back into the axes of the plots. The columns of a row are read as numbers.
use houdini_lab.Common.{
  ℕ, Bool, true, false, Option, none, some, List, [], ◌∷◌, ◌++◌, if◌then◌else◌,
}
use houdini_lab.Common.Int.{ℤ, ltb_ℤ}
use houdini_lab.Common.Text.{Text, text_eq}
use houdini_lab.Health.Result.{unbound_local_error, Result, ok, ◌>>=◌, or_raise}

pub record LogRow : Type 0 where
  pub uut_iris : Text
  pub uut_ch : Text
  pub uut_gain : ℕ
  pub ant : Text
  pub fft_pwr_db_a : ℤ
  pub fft_pwr_db_b : ℤ
  pub noise_floor_a : ℤ
  pub noise_floor_b : ℤ

-- The lists of one channel, and the buffers of the unit that is being read.
pub record Axes : Type 0 where
  pub axis_x : List (List ℕ)
  pub axis_y : List (List ℤ)
  pub noise_floor : List (List ℤ)
  pub axis_x_buff : List ℕ
  pub axis_y_buff : List ℤ
  pub axis_noise_buff : List ℤ

abbrev pub no_axes : Axes
no_axes = record {
  axis_x = [];
  axis_y = [];
  noise_floor = [];
  axis_x_buff = [];
  axis_y_buff = [];
  axis_noise_buff = [];
}

-- The buffers go to the lists.
abbrev pub flush : Axes → Axes
flush s = record s {
  axis_x = s.axis_x ++ (s.axis_x_buff ∷ []);
  axis_y = s.axis_y ++ (s.axis_y_buff ∷ []);
  noise_floor = s.noise_floor ++ (s.axis_noise_buff ∷ []);
}

abbrev pub start : ℕ → ℤ → ℤ → Axes → Axes
start gain power noise s = record s {
  axis_x_buff = gain ∷ [];
  axis_y_buff = power ∷ [];
  axis_noise_buff = noise ∷ [];
}

abbrev pub extend : ℕ → ℤ → ℤ → Axes → Axes
extend gain power noise s = record s {
  axis_x_buff = s.axis_x_buff ++ (gain ∷ []);
  axis_y_buff = s.axis_y_buff ++ (power ∷ []);
  axis_noise_buff = s.axis_noise_buff ++ (noise ∷ []);
}

-- The flags `reached_thresh` have no value before the first unit.
pub record RxLog : Type 0 where
  pub uut_iris : Text
  pub reached_thresh_0 : Option Bool
  pub reached_thresh_1 : Option Bool
  pub axes_0 : Axes
  pub axes_1 : Axes
  pub rx_serials : List Text

-- A point of a channel that is not the first of its unit, and the flag.
abbrev pub rx_point : ℤ → ℕ → ℤ → ℤ → Bool → Axes → Axes × Bool
rx_point rx_thresh gain power noise true s = (s, true)
rx_point rx_thresh gain power noise false s = (extend gain power noise s, ltb_ℤ rx_thresh power)

-- The first row of a unit.
abbrev pub rx_first : LogRow → RxLog → RxLog
rx_first row s = record {
  uut_iris = row.uut_iris;
  reached_thresh_0 = some false;
  reached_thresh_1 = some false;
  axes_0 = start row.uut_gain row.fft_pwr_db_a row.noise_floor_a (flush s.axes_0);
  axes_1 = start row.uut_gain row.fft_pwr_db_b row.noise_floor_b (flush s.axes_1);
  rx_serials = s.rx_serials ++ (row.uut_iris ∷ []);
}

-- The other rows.
abbrev pub rx_next : ℤ → LogRow → Bool → Bool → RxLog → RxLog
rx_next rx_thresh row reached_0 reached_1 s =
    let (axes_0, now_0) =
      rx_point rx_thresh row.uut_gain row.fft_pwr_db_a row.noise_floor_a reached_0 s.axes_0 in
    let (axes_1, now_1) =
      rx_point rx_thresh row.uut_gain row.fft_pwr_db_b row.noise_floor_b reached_1 s.axes_1 in
    record s {
      reached_thresh_0 = some now_0;
      reached_thresh_1 = some now_1;
      axes_0 = axes_0;
      axes_1 = axes_1;
    }

unfoldable pub rx_row : ℤ → LogRow → RxLog → Result RxLog
rx_row rx_thresh row s =
    if text_eq s.uut_iris row.uut_iris
    then (or_raise s.reached_thresh_0 unbound_local_error >>= λ reached_0.
        or_raise s.reached_thresh_1 unbound_local_error >>= λ reached_1.
        ok (rx_next rx_thresh row reached_0 reached_1 s))
    else ok (rx_first row s)

unfoldable pub rx_rows : ℤ → List LogRow → RxLog → Result RxLog
rx_rows rx_thresh [] s = ok s
rx_rows rx_thresh (row ∷ rows) s = rx_row rx_thresh row s >>= λ t. rx_rows rx_thresh rows t

unfoldable pub process_rx_log : ℤ → List LogRow → Result (Axes × Axes × List Text)
process_rx_log rx_thresh rows =
    rx_rows rx_thresh rows (record {
      uut_iris = [];
      reached_thresh_0 = none;
      reached_thresh_1 = none;
      axes_0 = no_axes;
      axes_1 = no_axes;
      rx_serials = [] ∷ [];
    })
    >>= λ s. ok (flush s.axes_0, flush s.axes_1, s.rx_serials)
