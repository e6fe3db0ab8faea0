-- ===== src/Dashboard/Sensors/Missing.antt =====
-- What get_sensors reports for each of the four temperatures: WEBGUI/iris_get_status.py.
use mathlib.Core.Path.{subst, fun_ext}
use houdini_lab.Common.{
  ◌≡◌, refl, Bool, false, Option, none, some, List, [], ◌∷◌, arith, if◌then◌else◌, inl, inr,
  Option-cases, Bool-cases,
}
use houdini_lab.Common.Text.{Text, codes, text_eq, text_eq_refl, text_eq→eq}
use houdini_lab.Dashboard.Sensors.{
  PyFloat, Sensor, Device, Status, Stat, lms7, zynq, tx, rx, put_stat, stat_or, value_or,
  read_sensors, format_temp, fill_status, read_device,
}

abbrev pub is_named : Text → Sensor → Bool
is_named k s = elim s.name [ none ↦ false | some name ↦ text_eq name k ]

-- The reading of the last sensor of that name; -100.0 if the reading failed.
abbrev pub last_reading : Text → List Sensor → Option Text
last_reading k [] = none
last_reading k (s ∷ ss) =
    let later = last_reading k ss in
    elim later [
      | some v ↦ some v
      | none ↦ if is_named k s then some (value_or s.reading (codes "-100.0")) else none
    ]

stat_or-put_stat :
    (k code name v : Text) (stat : Stat)
    → stat_or k code (put_stat name v stat) ≡ (if text_eq name k then v else stat_or k code stat)
unfolding stat_or put_stat
stat_or-put_stat k code name v [] = refl
stat_or-put_stat k code name v (e ∷ stat) = elim (Bool-cases (text_eq e.0 name)) [
  | inl same ↦ rw (same, text_eq→eq e.0 name same) (ground arith)
  | inr other ↦ rw other (
      ground (
        arith,
        stat_or-put_stat k code name v stat,
        text_eq→eq e.0 k,
        text_eq→eq name k,
        text_eq_refl name,
      ))
]

stat_or-read_sensors :
    (k code : Text) (ss : List Sensor) (stat stat' : Stat)
    → read_sensors ss stat ≡ some stat'
    → stat_or k code stat' ≡ value_or (last_reading k ss) (stat_or k code stat)
unfolding read_sensors
stat_or-read_sensors k code [] stat stat' h = ground arith
stat_or-read_sensors k code (s ∷ ss) stat stat' h = elim (Option-cases s.name) [
  | inl unnamed ↦ absurd (ground arith)
  | inr (name, e) ↦
      let value = value_or s.reading (codes "-100.0") in
      ground (
        arith,
        stat_or-read_sensors k code ss (put_stat name value stat) stat',
        stat_or-put_stat k code name value stat,
      )
]

stat_or-read_sensors_new :
    (k code : Text) (ss : List Sensor) (stat : Stat)
    → read_sensors ss [] ≡ some stat
    → stat_or k code stat ≡ value_or (last_reading k ss) code
unfolding stat_or
stat_or-read_sensors_new k code ss stat h = stat_or-read_sensors k code ss [] stat h

module _ (py : PyFloat) where
  -- The four texts are the formatted values, each of its own sensor or its own code.
  abbrev pub Filled : (Text → Text → Text) → Status → Type 0
  Filled value s =
      (format_temp py (value lms7 (codes "-101.0")) ≡ some s.lms7temp)
      × (format_temp py (value zynq (codes "101.0")) ≡ some s.zynqtemp)
      × (format_temp py (value tx (codes "-101.0")) ≡ some s.txtemp)
      × (format_temp py (value rx (codes "-101.0")) ≡ some s.rxtemp)

  fill_status-Filled :
      (iris : Text) (stat : Stat) (s : Status)
      → fill_status py iris stat ≡ some s
      → Filled (λ k code. stat_or k code stat) s
  unfolding fill_status
  fill_status-Filled iris stat s h = ground arith

  pub read_device-none :
      (iris : Text) (d : Device) → d.sensors ≡ none → read_device py iris d ≡ none
  unfolding read_device
  read_device-none iris d e = rw e

  -- The temperatures of a device that was read: of each sensor the last reading, -100.0 if that
  -- reading failed; without such a sensor -101.0, but 101.0 for the Zynq.
  pub read_device-Filled :
      (iris : Text) (d : Device) (ss : List Sensor) (s : Status)
      → d.sensors ≡ some ss
      → read_device py iris d ≡ some s
      → Filled (λ k code. value_or (last_reading k ss) code) s
  unfolding read_device
  read_device-Filled iris d ss s e h = elim (Option-cases (read_sensors ss [])) [
    | inl failed ↦ absurd (ground arith)
    | inr (stat, done) ↦
        let filled : Filled (λ k code. stat_or k code stat) s =
          fill_status-Filled iris stat s (ground arith) in
        subst (λ value. Filled value s)
          (fun_ext (λ k. fun_ext (λ code. stat_or-read_sensors_new k code ss stat done))) filled
  ]
