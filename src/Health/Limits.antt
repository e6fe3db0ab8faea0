-- ===== src/Health/Limits.antt =====
-- The limits of each unit in the two tests of PYTHON/IrisUtils/iris_health_monitor.py.
use houdini_lab.Common.{
  ℕ, ◌+◌, ◌≡◌, refl, Bool, true, false, ◌&&◌, Option, some, List, [], ◌∷◌, get_or,
}
use houdini_lab.Common.Text.{Text}
use houdini_lab.Health.Irises.{Irises}
use houdini_lab.Health.Gains.{Limits, set_gain_limits}

-- The limits of the unit i.
abbrev pub limits_of : ℕ → Irises → ℕ → Limits
limits_of freq irises i = set_gain_limits freq (get_or irises.uut_frontends i [])

-- The limits of the last unit.
abbrev pub last_limits : ℕ → Irises → ℕ → List Text → Option Limits → Option Limits
last_limits freq irises i [] latest = latest
last_limits freq irises i (serial ∷ serials) latest =
    last_limits freq irises (i + 1) serials (some (limits_of freq irises i))

pub last_limits-some :
    (freq : ℕ) (irises : Irises) (i : ℕ) (serials : List Text) (l : Limits)
    → (m : Limits) × (last_limits freq irises i serials (some l) ≡ some m)
last_limits-some freq irises i [] l = (l, refl)
last_limits-some freq irises i (serial ∷ serials) l =
    last_limits-some freq irises (i + 1) serials (limits_of freq irises i)

pub and_assoc : (x y z : Bool) → ((x && y) && z) ≡ (x && (y && z))
and_assoc true y z = refl
and_assoc false y z = refl

pub and_true : (x : Bool) → x ≡ (x && true)
and_true true = refl
and_true false = refl
