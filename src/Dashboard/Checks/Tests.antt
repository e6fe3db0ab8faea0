-- ===== src/Dashboard/Checks/Tests.antt =====
-- The sensors and the alarms on concrete devices.
use houdini_lab.Common.{◌≡◌, refl, true, false, Option, none, some, List, [], ◌∷◌, if◌then◌else◌}
use houdini_lab.Common.Text.{contains, Text, codes, text_eq}
use houdini_lab.Dashboard.Decimal.{decimal, decimal-ReadsBack}
use houdini_lab.Dashboard.Sensors.{
  Sensor, Device, Status, lms7, zynq, tx, rx, failed, get_sensors, try_iris, append_read,
  append_status, read_device, read_sensors, put_stat, fill_status, stat_or, format_temp,
}
use houdini_lab.Dashboard.Checks.{check_overheat, check_errors, test_all, test_status, test_temp}
use houdini_lab.Dashboard.Checks.Alarm.{
  Decides, AnyPasses, check_overheat-Decides, AllReadable, Readable,
}
use houdini_lab.Dashboard.Checks.Codes.{zynq_missing-overheats, OtherPasses}

abbrev sensor : Text → Option Text → Sensor
sensor name reading = record { name = some name; reading = reading }

-- All four temperatures, of which one cannot be read.
abbrev good : Device
good = record {
  fpga = some (codes "bs-2020");
  sensors = some (
      sensor lms7 (some (codes "41.50"))
      ∷ sensor zynq (some (codes "50.0"))
      ∷ sensor tx none
      ∷ sensor rx (some (codes "39.0"))
      ∷ []);
}

-- No Zynq temperature.
abbrev bare_sensors : List Sensor
bare_sensors =
    sensor lms7 (some (codes "41.50"))
    ∷ sensor tx (some (codes "39.0"))
    ∷ sensor rx (some (codes "39.0"))
    ∷ []

abbrev bare : Device
bare = record { fpga = some (codes "bs-2020"); sensors = some bare_sensors }

abbrev client : Device
client = record { fpga = some (codes "ue-2020"); sensors = some [] }

abbrev network : Text → Option Device
network iris =
    if text_eq iris (codes "RF1")
    then some good
    else if text_eq iris (codes "RF2")
    then some bare
    else if text_eq iris (codes "RF3")
    then some client
    else none

abbrev irises : List Text
irises = codes "RF1" ∷ codes "RF2" ∷ codes "RF3" ∷ codes "RF4" ∷ []

abbrev reported : List Status
reported =
    record {
      sn = codes "RF1";
      lms7temp = codes "41.50";
      zynqtemp = codes "50.0";
      txtemp = codes "-100.0";
      rxtemp = codes "39.0";
    }
    ∷ record {
      sn = codes "RF2";
      lms7temp = codes "41.50";
      zynqtemp = codes "101.0";
      txtemp = codes "39.0";
      rxtemp = codes "39.0";
    }
    ∷ failed (codes "RF4")
    ∷ []

get_sensors-network : get_sensors decimal (codes "1") network irises ≡ reported
unfolding get_sensors append_status try_iris append_read read_device read_sensors put_stat
    fill_status stat_or format_temp text_eq contains
get_sensors-network = refl

alarms_of_reported :
    (check_overheat decimal reported (codes "70.0") ≡ some true)
    × (check_errors decimal reported (codes "-100.0") ≡ some true)
    × (check_overheat decimal (failed (codes "RF4") ∷ []) (codes "70.0") ≡ some false)
    × (check_overheat decimal reported (codes "hot") ≡ none)
unfolding check_overheat check_errors test_all test_status test_temp
alarms_of_reported = (refl, refl, refl, refl)

abbrev bare_status : Status
bare_status = record {
  sn = codes "RF2";
  lms7temp = codes "41.50";
  zynqtemp = codes "101.0";
  txtemp = codes "39.0";
  rxtemp = codes "39.0";
}

read-bare : read_device decimal (codes "RF2") bare ≡ some bare_status
unfolding read_device read_sensors put_stat fill_status stat_or format_temp text_eq contains
read-bare = refl

check_overheat-Decides_example :
    Decides
      (AnyPasses decimal decimal.gt (codes "70.0") (get_sensors decimal (codes "1") network irises))
      (check_overheat decimal (get_sensors decimal (codes "1") network irises) (codes "70.0"))
check_overheat-Decides_example =
    check_overheat-Decides decimal (codes "1") network irises decimal-ReadsBack
      (codes "-102.0", refl) (codes "70.0") refl

-- The codes of an Iris that could not be opened are readable.
four_codes : AllReadable decimal (failed (codes "RF4") ∷ [])
four_codes =
    let code : Readable decimal (codes "-102.0") = (codes "-102.0", refl) in
    ((code, code, code, code), tt)

zynq_missing-overheats_example :
    (check_overheat decimal (failed (codes "RF4") ∷ bare_status ∷ []) (codes "70.0") ≡ some true)
    × Decides
        (OtherPasses decimal (codes "-100.0") (failed (codes "RF4") ∷ []) bare_status [])
        (check_errors decimal (failed (codes "RF4") ∷ bare_status ∷ []) (codes "-100.0"))
unfolding text_eq
zynq_missing-overheats_example =
    zynq_missing-overheats decimal (codes "RF2") bare bare_sensors (failed (codes "RF4") ∷ [])
      bare_status [] (codes "70.0") (codes "-100.0") {t = codes "70.0"} {e = codes "-100.0"}
      {x = codes "101.0"} {y = codes "101.0"} decimal-ReadsBack four_codes tt refl refl read-bare
      refl refl refl refl refl refl
