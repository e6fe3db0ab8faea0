-- ===== src/Dashboard/Checks/Alarm.antt =====
-- When the alarms of the dashboard go off: WEBGUI/iris_get_status.py.
use mathlib.Core.Path.{subst}
use houdini_lab.Common.{
  ◌≡◌, refl, Bool, true, false, Option, none, some, List, [], ◌∷◌, arith, ◌⊎◌, inl, inr,
  Option-cases, Bool-cases,
}
use houdini_lab.Common.Text.{Text, codes}
use houdini_lab.Dashboard.Sensors.{
  PyFloat, Device, Status, format_temp, read_device, append_read, append_status, try_iris,
  get_sensors,
}
use houdini_lab.Dashboard.Sensors.Missing.{read_device-Filled, read_device-none}
use houdini_lab.Dashboard.Checks.{
  or_test, test_temp, test_status, test_all, check_overheat, check_errors,
}

-- The test was made, and says whether `P`.
pub data Decides (P : Type 0) : Option Bool → Type 0 where
  holds : P → Decides P (some true)
  fails : ¬ P → Decides P (some false)

pub Decides-true : {P : Type 0} {b : Option Bool} → Decides P b → P → b ≡ some true
Decides-true (holds _) p = refl
Decides-true (fails n) p = absurd (n p)

or_test-Decides :
    {P Q : Type 0} {p q : Option Bool} → Decides P p → Decides Q q → Decides (P ⊎ Q) (or_test p q)
or_test-Decides (holds a) _ = holds (inl a)
or_test-Decides (fails m) (holds b) = holds (inr b)
or_test-Decides (fails m) (fails n) = fails (λ h. elim h [ inl p ↦ m p | inr q ↦ n q ])

module _ (py : PyFloat) where
  open py use {Float, float, fixed2, gt, le}

  -- The text is a float.
  abbrev pub Readable : Text → Type 0
  Readable t = (x : Float) × (float t ≡ some x)

  abbrev pub StatusReadable : Status → Type 0
  StatusReadable s =
      Readable s.lms7temp × Readable s.zynqtemp × Readable s.txtemp × Readable s.rxtemp

  abbrev pub AllReadable : List Status → Type 0
  AllReadable [] = Unit {0}
  AllReadable (s ∷ ss) = StatusReadable s × AllReadable ss

  -- The text is a float that compares so with the threshold.
  abbrev pub Passes : (Float → Float → Bool) → Float → Text → Type 0
  Passes compare thresh t = (x : Float) × (float t ≡ some x) × (compare x thresh ≡ true)

  abbrev pub StatusPasses : (Float → Float → Bool) → Float → Status → Type 0
  StatusPasses compare thresh s =
      Passes compare thresh s.lms7temp
      ⊎ (Passes compare thresh s.zynqtemp
          ⊎ (Passes compare thresh s.txtemp ⊎ Passes compare thresh s.rxtemp))

  -- One temperature of one Iris compares so with the threshold.
  abbrev pub AnyPasses : (Float → Float → Bool) → Float → List Status → Type 0
  AnyPasses compare thresh [] = ⊥
  AnyPasses compare thresh (s ∷ ss) = StatusPasses compare thresh s ⊎ AnyPasses compare thresh ss

  test_temp-eq :
      (compare : Float → Float → Bool) (thresh : Float) (t : Text) {x : Float}
      → float t ≡ some x
      → test_temp py compare thresh t ≡ some (compare x thresh)
  unfolding test_temp
  test_temp-eq compare thresh t e = rw e

  test_temp-Decides :
      (compare : Float → Float → Bool) (thresh : Float) (t : Text)
      → Readable t
      → Decides (Passes compare thresh t) (test_temp py compare thresh t)
  test_temp-Decides compare thresh t (x, e) = elim (Bool-cases (compare x thresh)) [
    | inl h ↦ rw (test_temp-eq compare thresh t e, h) (holds (x, e, h))
    | inr h ↦ rw (test_temp-eq compare thresh t e, h) (fails (λ p. cc (e, p.1, p.2, h)))
  ]

  test_status-Decides :
      (compare : Float → Float → Bool) (thresh : Float) (s : Status)
      → StatusReadable s
      → Decides (StatusPasses compare thresh s) (test_status py compare thresh s)
  unfolding test_status
  test_status-Decides compare thresh s (a, b, c, d) =
      or_test-Decides (test_temp-Decides compare thresh s.lms7temp a) (
        or_test-Decides (test_temp-Decides compare thresh s.zynqtemp b) (
          or_test-Decides (test_temp-Decides compare thresh s.txtemp c)
            (test_temp-Decides compare thresh s.rxtemp d)))

  test_all-Decides :
      (compare : Float → Float → Bool) (thresh : Float) (ss : List Status)
      → AllReadable ss
      → Decides (AnyPasses compare thresh ss) (test_all py compare thresh ss)
  unfolding test_all
  test_all-Decides compare thresh [] h = fails (λ p. p)
  test_all-Decides compare thresh (s ∷ ss) h =
      or_test-Decides (test_status-Decides compare thresh s h.0)
        (test_all-Decides compare thresh ss h.1)

  -- What the formatting of Python promises: what it wrote is a float again.
  abbrev pub ReadsBack : Type 0
  ReadsBack = (x : Float) → Readable (fixed2 x)

  pub format_temp-eq :
      (t : Text) {x : Float} → float t ≡ some x → format_temp py t ≡ some (fixed2 x)
  unfolding format_temp
  format_temp-eq t e = rw e

  format_temp-none : (t : Text) → float t ≡ none → format_temp py t ≡ none
  unfolding format_temp
  format_temp-none t e = rw e

  formatted-Readable : (t : Text) {u : Text} → ReadsBack → format_temp py t ≡ some u → Readable u
  formatted-Readable t {u} reads h = elim (Option-cases (float t)) [
    | inl e ↦ absurd (cc (format_temp-none t e, h))
    | inr (x, e) ↦
        let same : fixed2 x ≡ u = cc (format_temp-eq t e, h) in subst Readable same (reads x)
  ]

  pub read_device-Readable :
      (iris : Text) (d : Device) (s : Status)
      → ReadsBack
      → read_device py iris d ≡ some s
      → StatusReadable s
  read_device-Readable iris d s reads h = elim (Option-cases d.sensors) [
    | inl e ↦ absurd (cc (read_device-none py iris d e, h))
    | inr (ss, e) ↦
        let (a, b, c, r) = read_device-Filled py iris d ss s e h in
        (
          formatted-Readable _ reads a,
          formatted-Readable _ reads b,
          formatted-Readable _ reads c,
          formatted-Readable _ reads r,
        )
  ]

  append_read-Readable :
      (iris : Text) (d : Device) (rest : List Status)
      → ReadsBack
      → Readable (codes "-102.0")
      → AllReadable rest
      → AllReadable (append_status py iris (append_read py iris d) rest)
  unfolding append_status append_read
  append_read-Readable iris d rest reads code h = elim (Option-cases (read_device py iris d)) [
    | inl e ↦ rw e ((code, code, code, code), h)
    | inr (s, e) ↦ rw e (read_device-Readable iris d s reads e, h)
  ]

  try_iris-cases :
      (bs_iris_only iris : Text) (d : Device)
      → (try_iris py bs_iris_only iris (some d) ≡ none)
        ⊎ ((try_iris py bs_iris_only iris (some d) ≡ some none)
            ⊎ (try_iris py bs_iris_only iris (some d) ≡ append_read py iris d))
  unfolding try_iris
  try_iris-cases bs_iris_only iris d = ground arith

  append-Readable :
      (bs_iris_only iris : Text) (d : Option Device) (rest : List Status)
      → ReadsBack
      → Readable (codes "-102.0")
      → AllReadable rest
      → AllReadable (append_status py iris (try_iris py bs_iris_only iris d) rest)
  append-Readable bs_iris_only iris none rest reads code h =
      unfold append_status try_iris in ((code, code, code, code), h)
  append-Readable bs_iris_only iris (some d) rest reads code h =
      elim (try_iris-cases bs_iris_only iris d) [
        | inl e ↦ rw e (unfold append_status in ((code, code, code, code), h))
        | inr (inl e) ↦ rw e (unfold append_status in h)
        | inr (inr e) ↦ rw e (append_read-Readable iris d rest reads code h)
      ]

  pub get_sensors-AllReadable :
      (bs_iris_only : Text) (open_device : Text → Option Device) (irises : List Text)
      → ReadsBack
      → Readable (codes "-102.0")
      → AllReadable (get_sensors py bs_iris_only open_device irises)
  unfolding get_sensors
  get_sensors-AllReadable bs_iris_only open_device [] reads code = tt
  get_sensors-AllReadable bs_iris_only open_device (iris ∷ irises) reads code =
      append-Readable bs_iris_only iris (open_device iris) _ reads code
        (get_sensors-AllReadable bs_iris_only open_device irises reads code)

  pub overheat-Decides :
      (ss : List Status) (thresh : Text) {t : Float}
      → AllReadable ss
      → float thresh ≡ some t
      → Decides (AnyPasses gt t ss) (check_overheat py ss thresh)
  unfolding check_overheat
  overheat-Decides ss thresh {t} h known = rw known (test_all-Decides gt t ss h)

  pub errors-Decides :
      (ss : List Status) (thresh : Text) {t : Float}
      → AllReadable ss
      → float thresh ≡ some t
      → Decides (AnyPasses le t ss) (check_errors py ss thresh)
  unfolding check_errors
  errors-Decides ss thresh {t} h known = rw known (test_all-Decides le t ss h)

  module _ (bs_iris_only : Text) (open_device : Text → Option Device) (irises : List Text)
      (reads : ReadsBack) (code : Readable (codes "-102.0")) (thresh : Text) {t : Float}
      (known : float thresh ≡ some t) where
    -- With a threshold that parses, formatted temperatures that read back and a code -102.0 that parses:
    -- on what get_sensors returns, check_overheat does not raise, and it is true exactly if one
    -- temperature of one Iris is over the threshold.
    pub check_overheat-Decides :
        Decides
          (AnyPasses gt t (get_sensors py bs_iris_only open_device irises))
          (check_overheat py (get_sensors py bs_iris_only open_device irises) thresh)
    check_overheat-Decides =
        overheat-Decides _ thresh
          (get_sensors-AllReadable bs_iris_only open_device irises reads code) known

    -- Under the same conditions check_errors does not raise, and it is true exactly if one temperature of
    -- one Iris is at or under the threshold.
    pub check_errors-Decides :
        Decides
          (AnyPasses le t (get_sensors py bs_iris_only open_device irises))
          (check_errors py (get_sensors py bs_iris_only open_device irises) thresh)
    check_errors-Decides =
        errors-Decides _ thresh (get_sensors-AllReadable bs_iris_only open_device irises reads code)
          known
