-- ===== src/Health/TxLog.antt =====
-- PYTHON/IrisUtils/iris_health_monitor.py, process_tx_log.
use houdini_lab.Common.{Bool, false, ◌||◌, List, [], ◌∷◌, ◌++◌, if◌then◌else◌}
use houdini_lab.Common.Int.{ℤ}
use houdini_lab.Common.Text.{Text, codes, text_eq}
use houdini_lab.Health.Logs.{LogRow, Axes, no_axes, flush, start, extend}

pub record TxLog : Type 0 where
  pub uut_ch : Text
  pub axes_0 : Axes
  pub axes_1 : Axes
  pub tx_serials : List Text

abbrev pub is_a : Text → Bool
is_a t = text_eq t (codes "A")

-- The power and the noise floor on the golden antenna.
abbrev pub heard_power : LogRow → ℤ
heard_power row = if is_a row.ant then row.fft_pwr_db_a else row.fft_pwr_db_b

abbrev pub heard_noise : LogRow → ℤ
heard_noise row = if is_a row.ant then row.noise_floor_a else row.noise_floor_b

-- The first row of a channel finishes the other one.
abbrev pub tx_first : LogRow → TxLog → TxLog
tx_first row s =
    if is_a row.uut_ch
    then record {
      uut_ch = row.uut_ch;
      axes_0 = start row.uut_gain (heard_power row) (heard_noise row) s.axes_0;
      axes_1 = flush s.axes_1;
      tx_serials = s.tx_serials ++ (row.uut_iris ∷ []);
    }
    else record {
      uut_ch = row.uut_ch;
      axes_0 = flush s.axes_0;
      axes_1 = start row.uut_gain (heard_power row) (heard_noise row) s.axes_1;
      tx_serials = s.tx_serials ++ (row.uut_iris ∷ []);
    }

abbrev pub tx_next : LogRow → TxLog → TxLog
tx_next row s =
    if is_a s.uut_ch
    then record s { axes_0 = extend row.uut_gain (heard_power row) (heard_noise row) s.axes_0 }
    else record s { axes_1 = extend row.uut_gain (heard_power row) (heard_noise row) s.axes_1 }

unfoldable pub tx_rows : List LogRow → TxLog → TxLog
tx_rows [] s = s
tx_rows (row ∷ rows) s =
    tx_rows rows (if text_eq s.uut_ch row.uut_ch then tx_next row s else tx_first row s)

abbrev pub member : Text → List Text → Bool
member t [] = false
member t (s ∷ ss) = text_eq s t || member t ss

-- `list(dict.fromkeys(serials))`, after those that were seen
unfoldable pub from_keys : List Text → List Text → List Text
from_keys seen [] = []
from_keys seen (t ∷ ts) =
    let rest = from_keys (t ∷ seen) ts in
    let skip = from_keys seen ts in if member t seen then skip else t ∷ rest

abbrev pub tx_start : TxLog
tx_start = record { uut_ch = []; axes_0 = flush no_axes; axes_1 = no_axes; tx_serials = [] ∷ [] }

abbrev pub tx_end : TxLog → Axes × Axes
tx_end s = if is_a s.uut_ch then (flush s.axes_0, s.axes_1) else (s.axes_0, flush s.axes_1)

unfoldable pub process_tx_log : List LogRow → Axes × Axes × List Text
process_tx_log rows =
    let s = tx_rows rows tx_start in ((tx_end s).0, (tx_end s).1, from_keys [] s.tx_serials)
