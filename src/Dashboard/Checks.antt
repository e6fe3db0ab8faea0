-- ===== src/Dashboard/Checks.antt =====
-- WEBGUI/iris_get_status.py, check_overheat and check_errors. `none` is a ValueError.
pub mod Alarm
pub mod Codes
mod Tests
use houdini_lab.Common.{Bool, true, false, Option, none, some, List, [], ◌∷◌}
use houdini_lab.Common.Text.{Text}
use houdini_lab.Dashboard.Sensors.{PyFloat, Status, ◌>>=◌}

-- Python's `or`: the second test is made only if the first is false.
abbrev pub or_test : Option Bool → Option Bool → Option Bool
or_test none q = none
or_test (some true) q = some true
or_test (some false) q = q

module _ (py : PyFloat) where
  open py use {Float, float, gt, le}

  -- `float(t) > thresh`, or with another comparison
  unfoldable pub test_temp : (Float → Float → Bool) → Float → Text → Option Bool
  test_temp compare thresh t = float t >>= λ x. some (compare x thresh)

  unfoldable pub test_status : (Float → Float → Bool) → Float → Status → Option Bool
  test_status compare thresh s = or_test (test_temp compare thresh s.lms7temp) (
      or_test (test_temp compare thresh s.zynqtemp)
        (or_test (test_temp compare thresh s.txtemp) (test_temp compare thresh s.rxtemp)))

  unfoldable pub test_all : (Float → Float → Bool) → Float → List Status → Option Bool
  test_all compare thresh [] = some false
  test_all compare thresh (s ∷ ss) =
      or_test (test_status compare thresh s) (test_all compare thresh ss)

  unfoldable pub check_overheat : List Status → Text → Option Bool
  check_overheat irises_sensors thresh = float thresh >>= λ t. test_all gt t irises_sensors

  unfoldable pub check_errors : List Status → Text → Option Bool
  check_errors irises_sensors thresh = float thresh >>= λ t. test_all le t irises_sensors
