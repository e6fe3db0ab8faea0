-- ===== src/Dashboard/Sensors/Report.antt =====
-- Which Irises get_sensors reports: WEBGUI/iris_get_status.py.
use houdini_lab.Common.{
  ◌≡◌, refl, Bool, false, not, ◌&&◌, Option, none, some, List, [], ◌∷◌, map, arith, if◌then◌else◌,
  inl, inr, Option-cases,
}
use houdini_lab.Common.Text.{Text, codes, text_eq, contains}
use houdini_lab.Dashboard.Scan.{filter_lines}
use houdini_lab.Dashboard.Sensors.{
  PyFloat, Device, Status, Stat, fill_status, read_device, append_read, try_iris, append_status,
  get_sensors,
}

-- A device that opens, answers, and runs the image of a client, while only the base station is
-- to be checked.
abbrev pub is_skipped : Text → Option Device → Bool
is_skipped bs_iris_only none = false
is_skipped bs_iris_only (some d) =
    text_eq bs_iris_only (codes "1")
    && elim d.fpga [ none ↦ false | some fpga ↦ contains fpga (codes "ue") ]

abbrev pub sn_of : Status → Text
sn_of s = s.sn

module _ (py : PyFloat) where
  fill_status-sn :
      (iris : Text) (stat : Stat) (s : Status) → fill_status py iris stat ≡ some s → s.sn ≡ iris
  unfolding fill_status
  fill_status-sn iris stat s h = ground arith

  read_device-sn :
      (iris : Text) (d : Device) (s : Status) → read_device py iris d ≡ some s → s.sn ≡ iris
  unfolding read_device
  read_device-sn iris d s h = grind (arith, fill_status-sn)

  append_read-sn :
      (iris : Text) (d : Device) (rest : List Status)
      → map sn_of (append_status py iris (append_read py iris d) rest) ≡ iris ∷ map sn_of rest
  unfolding append_status append_read
  append_read-sn iris d rest = elim (Option-cases (read_device py iris d)) [
    | inl e ↦ rw e
    | inr (s, e) ↦ rw (e, read_device-sn iris d s e)
  ]

  append-sn :
      (bs_iris_only iris : Text) (d : Option Device) (rest : List Status)
      → map sn_of (append_status py iris (try_iris py bs_iris_only iris d) rest)
        ≡ (if is_skipped bs_iris_only d then map sn_of rest else iris ∷ map sn_of rest)
  unfolding append_status try_iris
  append-sn bs_iris_only iris none rest = refl
  append-sn bs_iris_only iris (some d) rest = ground (arith, append_read-sn iris d rest)

  -- Every scanned Iris is reported exactly once, in the order of the scan, whatever its sensors
  -- do, except those that are skipped.
  get_sensors-serials :
      (bs_iris_only : Text) (open_device : Text → Option Device) (irises : List Text)
      → map sn_of (get_sensors py bs_iris_only open_device irises)
        ≡ filter_lines (λ iris. not (is_skipped bs_iris_only (open_device iris))) irises
  unfolding get_sensors filter_lines
  get_sensors-serials bs_iris_only open_device [] = refl
  get_sensors-serials bs_iris_only open_device (iris ∷ irises) = ground (
    arith,
    append-sn bs_iris_only iris (open_device iris) (get_sensors py bs_iris_only open_device irises),
    get_sensors-serials bs_iris_only open_device irises,
  )
