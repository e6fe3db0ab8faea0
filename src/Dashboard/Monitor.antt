-- ===== src/Dashboard/Monitor.antt =====
-- WEBGUI/renew.py, background_thread: the rounds of the monitor. The web socket, the database and
-- the mail server are a list of events; what the network answers in a round is its input.
pub mod Rounds
pub mod Liveness
mod Tests
use houdini_lab.Common.{
  ℕ, Bool, true, false, Option, none, some, List, [], ◌∷◌, ◌++◌, if◌then◌else◌,
}
use houdini_lab.Common.Text.{Text}
use houdini_lab.Dashboard.Scan.{get_iris_sns_on_network}
use houdini_lab.Dashboard.Sensors.{PyFloat, Device, Status, ◌>>=◌, get_sensors}
use houdini_lab.Dashboard.Checks.{check_overheat, check_errors}
use houdini_lab.Dashboard.Emails.{Mail, send_email_overheat, send_email_errors}

-- The settings that the program reads from its environment. `refresh_rate` is
-- `int(SENSOR_REFRESH_RATE)`, `none` if that raises.
pub record Settings : Type 0 where
  pub bs_iris_only : Text
  pub server : Text
  pub recipient : Text
  pub overheat_thresh : Text
  pub error_thresh : Text
  pub refresh_rate : Option ℕ

-- A row of the table BaseStationIrisTemperature.
pub record Row : Type 0 where
  pub timestamp : Text
  pub servername : Text
  pub iris_sn : Text
  pub overheat_thresh : Text
  pub lms7_temp : Text
  pub zynq_temp : Text
  pub tx_temp : Text
  pub rx_temp : Text
  pub overheat_warning : Bool
  pub error_warning : Bool

-- What one round meets: the outputs of the scan, the devices, the time, and which rows the database and
-- which mails the server takes; on any other the call raises.
pub record Round : Type 0 where
  pub scan : ℕ → Text
  pub open_device : Text → Option Device
  pub utc_datetime : Text
  pub stores : Row → Bool
  pub sends : Mail → Bool

pub data Event : Type 0 where
  emit : List Status → Text → Text → Event
  sleep : ℕ → Event
  add : Row → Event
  commit : Event
  send : Mail → Event

-- What was done, and whether the thread goes on: `false` after an exception.
abbrev pub Done : Type 0
Done = List Event × Bool

-- `first`, and then `next` unless `first` raised.
abbrev pub and_then : Done → Done → Done
and_then (es, false) next = (es, false)
and_then (es, true) (fs, alive) = (es ++ fs, alive)

abbrev pub raised : Done
raised = ([], false)

-- The row is added to the session, and the commit raises if the database does not take it.
abbrev pub log_row : (Row → Bool) → Option Row → Done
log_row stores none = raised
log_row stores (some row) =
    if stores row then (add row ∷ commit ∷ [], true) else (add row ∷ [], false)

abbrev pub send_if : (Mail → Bool) → Option Bool → Mail → Done
send_if sends none mail = raised
send_if sends (some true) mail = if sends mail then (send mail ∷ [], true) else raised
send_if sends (some false) mail = ([], true)

abbrev pub sleep_for : Option ℕ → Done
sleep_for none = raised
sleep_for (some n) = (sleep n ∷ [], true)

module _ (py : PyFloat) (set : Settings) where
  unfoldable pub sensors_of : Round → List Status
  sensors_of r = get_sensors py set.bs_iris_only r.open_device (get_iris_sns_on_network r.scan)

  unfoldable pub make_row : Text → List Status → Status → Option Row
  make_row utc_datetime irises_sensors s = do
    overheat ← check_overheat py irises_sensors set.overheat_thresh
    errors ← check_errors py irises_sensors set.error_thresh
    some (record {
      timestamp = utc_datetime;
      servername = set.server;
      iris_sn = s.sn;
      overheat_thresh = set.overheat_thresh;
      lms7_temp = s.lms7temp;
      zynq_temp = s.zynqtemp;
      tx_temp = s.txtemp;
      rx_temp = s.rxtemp;
      overheat_warning = overheat;
      error_warning = errors;
    })

  -- The loop that logs to the database, over what is left of `irises_sensors`.
  unfoldable pub log_rows : (Row → Bool) → Text → List Status → List Status → Done
  log_rows stores utc_datetime irises_sensors [] = ([], true)
  log_rows stores utc_datetime irises_sensors (s ∷ ss) =
      and_then (log_row stores (make_row utc_datetime irises_sensors s))
        (log_rows stores utc_datetime irises_sensors ss)

  unfoldable pub alerts : (Mail → Bool) → Text → List Status → Done
  alerts sends utc_datetime ss =
      and_then
        (send_if sends (check_overheat py ss set.overheat_thresh)
          (send_email_overheat set.server set.recipient utc_datetime ss set.overheat_thresh))
        (send_if sends (check_errors py ss set.error_thresh)
          (send_email_errors set.server set.recipient utc_datetime ss set.error_thresh))

  -- One turn of `while True`.
  unfoldable pub monitor_round : Round → Done
  monitor_round r =
      let ss = sensors_of r in
      and_then (sleep_for set.refresh_rate) (
        and_then (emit ss r.utc_datetime set.server ∷ [], true)
          (and_then (log_rows r.stores r.utc_datetime ss ss) (alerts r.sends r.utc_datetime ss)))

  unfoldable pub monitor_rounds : List Round → Done
  monitor_rounds [] = ([], true)
  monitor_rounds (r ∷ rs) = and_then (monitor_round r) (monitor_rounds rs)

  -- The thread on a first look at the network and any number of rounds.
  unfoldable pub background_thread : Round → List Round → Done
  background_thread first rs =
      and_then (emit (sensors_of first) first.utc_datetime set.server ∷ [], true)
        (monitor_rounds rs)
