-- ===== src/Dashboard/Checks/Codes.antt =====
-- The error codes against the alarms: WEBGUI/iris_get_status.py.
use houdini_lab.Common.{
  ◌≡◌, Bool, true, false, Option, none, some, List, [], ◌∷◌, ◌++◌, inl, inr, ◌↔◌, ◌⊎◌,
}
use houdini_lab.Common.Text.{Text, codes}
use houdini_lab.Dashboard.Sensors.{
  PyFloat, Sensor, Device, Status, zynq, read_device, get_sensors, try_iris, append_status,
}
use houdini_lab.Dashboard.Sensors.Missing.{last_reading, read_device-Filled}
use houdini_lab.Dashboard.Checks.{check_overheat, check_errors}
use houdini_lab.Dashboard.Checks.Alarm.{
  Decides-true, AllReadable, Passes, AnyPasses, ReadsBack, overheat-Decides, check_errors-Decides,
  read_device-Readable, format_temp-eq, Decides, holds, errors-Decides, fails,
}

module _ (py : PyFloat) where
  open py use {Float, float, fixed2, gt, le}

  AllReadable-append :
      (before after : List Status)
      → AllReadable py before
      → AllReadable py after
      → AllReadable py (before ++ after)
  AllReadable-append [] after h k = k
  AllReadable-append (s ∷ before) after h k = (h.0, AllReadable-append before after h.1 k)

  AnyPasses-split :
      (compare : Float → Float → Bool) (t : Float) (before after : List Status)
      → AnyPasses py compare t (before ++ after)
        ↔ (AnyPasses py compare t before ⊎ AnyPasses py compare t after)
  AnyPasses-split compare t [] after = (λ p. inr p, λ p. elim p [ inl q ↦ absurd q | inr q ↦ q ])
  AnyPasses-split compare t (s ∷ before) after =
      let (split, join) = AnyPasses-split compare t before after in
      (
        λ p. elim p [
          | inl q ↦ inl (inl q)
          | inr q ↦ elim (split q) [ inl a ↦ inl (inr a) | inr a ↦ inr a ]
        ],
        λ p. elim p [
          | inl (inl q) ↦ inl q
          | inl (inr q) ↦ inr (join (inl q))
          | inr q ↦ inr (join (inr q))
        ],
      )

  -- Some temperature but the Zynq one of an Iris s among others is at or under the threshold.
  abbrev pub OtherPasses : Float → List Status → Status → List Status → Type 0
  OtherPasses e before s rest =
      AnyPasses py le e before
      ⊎ ((Passes py le e s.lms7temp ⊎ (Passes py le e s.txtemp ⊎ Passes py le e s.rxtemp))
          ⊎ AnyPasses py le e rest)

  AnyPasses-other :
      (e : Float) (before : List Status) (s : Status) (rest : List Status)
      → ¬ Passes py le e s.zynqtemp
      → AnyPasses py le e (before ++ s ∷ rest) ↔ OtherPasses e before s rest
  AnyPasses-other e before s rest fine =
      let (split, join) = AnyPasses-split le e before (s ∷ rest) in
      (
        λ p. elim (split p) [
          | inl q ↦ inl q
          | inr (inl (inl a)) ↦ inr (inl (inl a))
          | inr (inl (inr (inl a))) ↦ absurd (fine a)
          | inr (inl (inr (inr a))) ↦ inr (inl (inr a))
          | inr (inr q) ↦ inr (inr q)
        ],
        λ p. elim p [
          | inl q ↦ join (inl q)
          | inr (inl (inl a)) ↦ join (inr (inl (inl a)))
          | inr (inl (inr a)) ↦ join (inr (inl (inr (inr a))))
          | inr (inr q) ↦ join (inr (inr q))
        ],
      )

  Decides-iff : {P Q : Type 0} {b : Option Bool} → P ↔ Q → Decides P b → Decides Q b
  Decides-iff same (holds p) = holds (same.0 p)
  Decides-iff same (fails n) = fails (λ q. n (same.1 q))

  -- A device that lists no Zynq temperature, anywhere among Irises with readable temperatures, is
  -- reported as overheated, whatever its true temperatures are, where 101 is over the threshold; and
  -- that entry, which stands for an error, is none to check_errors, where 101 is over its threshold:
  -- check_errors is true exactly if some other temperature is at or under that threshold.
  pub zynq_missing-overheats :
      (iris : Text) (d : Device) (ss : List Sensor) (before : List Status) (s : Status)
      (rest : List Status) (thresh thresh' : Text) {t e x y : Float}
      → ReadsBack py
      → AllReadable py before
      → AllReadable py rest
      → d.sensors ≡ some ss
      → last_reading zynq ss ≡ none
      → read_device py iris d ≡ some s
      → float (codes "101.0") ≡ some x
      → float (fixed2 x) ≡ some y
      → float thresh ≡ some t
      → float thresh' ≡ some e
      → gt y t ≡ true
      → le y e ≡ false
      → (check_overheat py (before ++ s ∷ rest) thresh ≡ some true)
        × Decides (OtherPasses e before s rest) (check_errors py (before ++ s ∷ rest) thresh')
  zynq_missing-overheats iris d ss before s rest thresh thresh' {t} {e} {x} {y} reads firsts others
        listed missing read code back known known' hot fine =
      let filled = (read_device-Filled py iris d ss s listed read).1 in
      let text : fixed2 x ≡ s.zynqtemp =
        cc (filled, missing, format_temp-eq py (codes "101.0") code) in
      let hot_zynq : Passes py gt t s.zynqtemp = (y, cc (text, back), hot) in
      let cool_zynq : ¬ Passes py le e s.zynqtemp = λ p. cc (p.1, p.2, text, back, fine) in
      let readable =
        AllReadable-append before (s ∷ rest) firsts
          (read_device-Readable py iris d s reads read, others) in
      (
        Decides-true (overheat-Decides py (before ++ s ∷ rest) thresh readable known)
            ((AnyPasses-split gt t before (s ∷ rest)).1 (inr (inl (inr (inl hot_zynq))))),
        Decides-iff (AnyPasses-other e before s rest cool_zynq)
            (errors-Decides py (before ++ s ∷ rest) thresh' readable known'),
      )

  AnyPasses-append :
      (compare : Float → Float → Bool) (t : Float) (bs_iris_only iris : Text) (d : Option Device)
      (rest : List Status)
      → AnyPasses py compare t rest
      → AnyPasses py compare t (append_status py iris (try_iris py bs_iris_only iris d) rest)
  unfolding append_status
  AnyPasses-append compare t bs_iris_only iris d rest h =
      elim (try_iris py bs_iris_only iris d)
        as (λ r. AnyPasses py compare t (append_status py iris r rest)) [
          | none ↦ inr h
          | some none ↦ h
          | some (some s) ↦ inr h
        ]

  failed-AnyPasses :
      (bs_iris_only : Text) (open_device : Text → Option Device) (before : List Text) (iris : Text)
      (irises : List Text) (t : Float)
      → Passes py le t (codes "-102.0")
      → open_device iris ≡ none
      → AnyPasses py le t (get_sensors py bs_iris_only open_device (before ++ iris ∷ irises))
  unfolding get_sensors
  failed-AnyPasses bs_iris_only open_device [] iris irises t low unopened =
      rw unopened (unfold append_status try_iris in inl (inl low))
  failed-AnyPasses bs_iris_only open_device (i ∷ before) iris irises t low unopened =
      AnyPasses-append le t bs_iris_only i (open_device i) _
        (failed-AnyPasses bs_iris_only open_device before iris irises t low unopened)

  -- One scanned Iris that cannot be opened raises the error alarm, where -102 is at or under the
  -- threshold.
  unopened-errors :
      (bs_iris_only : Text) (open_device : Text → Option Device) (before : List Text) (iris : Text)
      (irises : List Text) (thresh : Text) {t x : Float}
      → ReadsBack py
      → float (codes "-102.0") ≡ some x
      → float thresh ≡ some t
      → le x t ≡ true
      → open_device iris ≡ none
      → check_errors py (get_sensors py bs_iris_only open_device (before ++ iris ∷ irises)) thresh
        ≡ some true
  unopened-errors bs_iris_only open_device before iris irises thresh {t} {x} reads code known low
        unopened =
      Decides-true
        (check_errors-Decides py bs_iris_only open_device (before ++ iris ∷ irises) reads (x, code)
          thresh known)
        (failed-AnyPasses bs_iris_only open_device before iris irises t (x, code, low) unopened)
