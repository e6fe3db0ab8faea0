-- ===== src/Health/LogTests.antt =====
-- Runs of the two readers of logs in PYTHON/IrisUtils/iris_health_monitor.py.
use houdini_lab.Health.Result.{Result, ok, raised}
use Prim.Native.String.{String}
use houdini_lab.Common.{ℕ, List, [], ◌∷◌, length, ◌≡◌, refl}
use houdini_lab.Common.Int.{negsuc}
use houdini_lab.Common.Text.{codes, Text, text_eq}
use houdini_lab.Health.Logs.{LogRow, process_rx_log, Axes, rx_rows, rx_row}

abbrev row : String → String → ℕ → LogRow
row serial ch gain = record {
  uut_iris = codes serial;
  uut_ch = codes ch;
  uut_gain = gain;
  ant = codes "A";
  fft_pwr_db_a = negsuc 29999;
  fft_pwr_db_b = negsuc 9999;
  noise_floor_a = negsuc 89999;
  noise_floor_b = negsuc 89999;
}

abbrev log : List LogRow
log = row "RF2" "A" 50 ∷ row "RF2" "A" 51 ∷ row "RF2" "B" 50 ∷ row "RF3" "A" 50 ∷ []

abbrev serials_of : Result (Axes × Axes × List Text) → ℕ
serials_of (ok (a, b, serials)) = length serials
serials_of (raised e) = 0

process_rx_log_lem : serials_of (process_rx_log (negsuc 17999) log) ≡ 3
unfolding process_rx_log rx_rows rx_row text_eq
process_rx_log_lem = refl
