-- ===== src/Health/Gains.antt =====
-- PYTHON/IrisUtils/iris_health_monitor.py, set_gain_limits, and the gains of a sweep: Python's
-- `range(lo, hi + 1, step)`.
use houdini_lab.Common.{
  ℕ, zero, suc, ◌+◌, ◌<◌, ◌≡◌, Bool, true, false, List, [], ◌∷◌, arith, ltb, ◌==◌, if◌then◌else◌,
}
use houdini_lab.Common.Text.{Text, codes, text_eq}
use houdini_lab.Health.Result.{value_error, Result, ok, raised}

pub record Limits : Type 0 where
  pub tx_lo : ℕ
  pub tx_hi : ℕ
  pub rx_lo : ℕ
  pub rx_hi : ℕ

-- The frequency is in Hz.
unfoldable pub set_gain_limits : ℕ → Text → Limits
set_gain_limits freq frontend =
    if text_eq frontend (codes "CBRS")
    then if freq == 3600000000
      then record { tx_lo = 50; tx_hi = 90; rx_lo = 50; rx_hi = 90 }
      else record { tx_lo = 50; tx_hi = 90; rx_lo = 50; rx_hi = 90 }
    else record { tx_lo = 0; tx_hi = 42; rx_lo = 0; rx_hi = 30 }

-- The first number counts the gains that may still come.
unfoldable pub range_from : ℕ → ℕ → ℕ → ℕ → List ℕ
range_from zero lo stop step = []
range_from (suc n) lo stop step =
    let rest = range_from n (lo + step) stop step in if ltb lo stop then lo ∷ rest else []

unfoldable pub range : ℕ → ℕ → ℕ → Result (List ℕ)
range lo stop step = if step == 0 then raised value_error else ok (range_from stop lo stop step)

pub range-ok :
    (lo stop step : ℕ) → 0 < step → range lo stop step ≡ ok (range_from stop lo stop step)
unfolding range
range-ok lo stop step p = let positive : (step == 0) ≡ false = ground arith in rw positive

pub range_from-cons :
    (lo stop step : ℕ) → lo < stop → (gains : List ℕ) × (range_from stop lo stop step ≡ lo ∷ gains)
unfolding range_from
range_from-cons lo zero step h = absurd (omega arith)
range_from-cons lo (suc stop) step h =
    let inside : ltb lo (suc stop) ≡ true = ground arith in
    (range_from stop (lo + step) (suc stop) step, rw inside)

-- Both ranges hold a gain.
abbrev pub Ordered : Limits → Type 0
Ordered l = (l.rx_lo < l.rx_hi + 1) × (l.tx_lo < l.tx_hi + 1)

if-Ordered : (x : Bool) (l m : Limits) → Ordered l → Ordered m → Ordered (if x then l else m)
if-Ordered true l m h k = h
if-Ordered false l m h k = k

pub set_gain_limits-Ordered : (freq : ℕ) (frontend : Text) → Ordered (set_gain_limits freq frontend)
unfolding set_gain_limits
set_gain_limits-Ordered freq frontend =
    if-Ordered (text_eq frontend (codes "CBRS")) _ _
      (if-Ordered (freq == 3600000000) _ _ (omega arith, omega arith) (omega arith, omega arith))
      (omega arith, omega arith)
