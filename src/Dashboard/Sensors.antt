-- ===== src/Dashboard/Sensors.antt =====
-- WEBGUI/iris_get_status.py, get_sensors: the temperatures of every Iris on the network. The
-- devices (SoapySDR) are data: what each call answers, `none` where it raises. The floats of
-- Python are the interface `PyFloat`.
pub mod Missing
pub mod Report
use houdini_lab.Common.{Bool, Option, none, some, List, [], ◌∷◌, if◌then◌else◌}
use houdini_lab.Common.Text.{Text, codes, text_eq, contains}

-- Python's `float` of a text (`none` is a ValueError), `"{:.2f}".format`, `>` and `<=`.
pub record PyFloat : Type 1 where
  pub Float : Type 0
  pub float : Text → Option Float
  pub fixed2 : Float → Text
  pub gt : Float → Float → Bool
  pub le : Float → Float → Bool

-- One sensor: its name (`getSensorInfo`) and its reading (`readSensor`).
pub record Sensor : Type 0 where
  pub name : Option Text
  pub reading : Option Text

-- One device: the "fpga" entry of `getHardwareInfo`, and `listSensors`.
pub record Device : Type 0 where
  pub fpga : Option Text
  pub sensors : Option (List Sensor)

pub record Status : Type 0 where
  pub sn : Text
  pub lms7temp : Text
  pub zynqtemp : Text
  pub txtemp : Text
  pub rxtemp : Text

abbrev pub lms7 : Text
lms7 = codes "LMS7 Temperature"

abbrev pub rx : Text
rx = codes "Rx temperature"

abbrev pub zynq : Text
zynq = codes "Zynq Temperature"

abbrev pub tx : Text
tx = codes "Tx temperature"

abbrev pub Stat : Type 0
Stat = List (Text × Text)

-- `stat[name] = value`
unfoldable pub put_stat : Text → Text → Stat → Stat
unfolding text_eq
put_stat k v [] = (k, v) ∷ []
put_stat k v (e ∷ stat) = if text_eq e.0 k then (k, v) ∷ stat else e ∷ put_stat k v stat

-- `stat[name] if name in stat else code`
unfoldable pub stat_or : Text → Text → Stat → Text
unfolding text_eq
stat_or k code [] = code
stat_or k code (e ∷ stat) = if text_eq e.0 k then e.1 else stat_or k code stat

abbrev pub value_or : Option Text → Text → Text
value_or none code = code
value_or (some v) code = v

-- The loop over the sensors; a reading that fails is the error code -100.0.
unfoldable pub read_sensors : List Sensor → Stat → Option Stat
unfolding put_stat
read_sensors [] stat = some stat
read_sensors (s ∷ ss) stat = elim s.name [
  | none ↦ none
  | some name ↦ read_sensors ss (put_stat name (value_or s.reading (codes "-100.0")) stat)
]

-- The status of an Iris that raised.
abbrev pub failed : Text → Status
failed iris = record {
  sn = iris;
  lms7temp = codes "-102.0";
  zynqtemp = codes "-102.0";
  txtemp = codes "-102.0";
  rxtemp = codes "-102.0";
}

infixl 5 ◌>>=◌
abbrev pub ◌>>=◌ {ℓ κ} : {A : Type ℓ} {B : Type κ} → Option A → (A → Option B) → Option B
none >>= f = none
some a >>= f = f a

module _ (py : PyFloat) where
  open py use {float, fixed2}

  -- `"{:.2f}".format(float(t))`
  unfoldable pub format_temp : Text → Option Text
  format_temp t = float t >>= λ x. some (fixed2 x)

  unfoldable pub fill_status : Text → Stat → Option Status
  fill_status iris stat = do
    lms7_text ← format_temp (stat_or lms7 (codes "-101.0") stat)
    zynq_text ← format_temp (stat_or zynq (codes "101.0") stat)
    tx_text ← format_temp (stat_or tx (codes "-101.0") stat)
    rx_text ← format_temp (stat_or rx (codes "-101.0") stat)
    some (record {
      sn = iris;
      lms7temp = lms7_text;
      zynqtemp = zynq_text;
      txtemp = tx_text;
      rxtemp = rx_text;
    })

  -- The sensors of a device that is to be reported.
  unfoldable pub read_device : Text → Device → Option Status
  read_device iris d = do sensors ← d.sensors; stat ← read_sensors sensors []; fill_status iris stat

  unfoldable pub append_read : Text → Device → Option (Option Status)
  append_read iris d = read_device iris d >>= λ status. some (some status)

  -- The body of the `try`: `none` if it raises, `some none` if it appends nothing.
  unfoldable pub try_iris : Text → Text → Option Device → Option (Option Status)
  try_iris bs_iris_only iris none = none
  try_iris bs_iris_only iris (some d) =
      if text_eq bs_iris_only (codes "1")
      then (do fpga ← d.fpga; if contains fpga (codes "ue") then some none else append_read iris d)
      else append_read iris d

  -- What one turn of the loop appends.
  unfoldable pub append_status : Text → Option (Option Status) → List Status → List Status
  append_status iris none rest = failed iris ∷ rest
  append_status iris (some none) rest = rest
  append_status iris (some (some status)) rest = status ∷ rest

  -- `open_device` is the SoapySDR of the network.
  unfoldable pub get_sensors : Text → (Text → Option Device) → List Text → List Status
  get_sensors bs_iris_only open_device [] = []
  get_sensors bs_iris_only open_device (iris ∷ irises) =
      append_status iris (try_iris bs_iris_only iris (open_device iris))
        (get_sensors bs_iris_only open_device irises)
