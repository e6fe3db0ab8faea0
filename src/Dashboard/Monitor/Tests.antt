-- ===== src/Dashboard/Monitor/Tests.antt =====
-- The monitor and the socket on concrete rounds.
use houdini_lab.Common.{refl, none, some, true}
use houdini_lab.Common.Text.{codes}
use houdini_lab.Dashboard.Decimal.{decimal, decimal-ReadsBack}
use houdini_lab.Dashboard.Monitor.{Settings, Round, sensors_of, monitor_round}
use houdini_lab.Dashboard.Monitor.Rounds.{Reported, monitor_round-Reported}

abbrev settings : Settings
settings = record {
  bs_iris_only = codes "1";
  server = codes "base";
  recipient = codes "a@b";
  overheat_thresh = codes "70.0";
  error_thresh = codes "-100.0";
  refresh_rate = some 570;
}

-- One Iris, which cannot be opened.
abbrev round : Round
round = record {
  scan = λ i. codes "IRIS RF1";
  open_device = λ iris. none;
  utc_datetime = codes "now";
  stores = λ row. true;
  sends = λ mail. true;
}

monitor_round-Reported_example :
    Reported decimal settings round 570
      (sensors_of decimal settings round)
      (monitor_round decimal settings round)
monitor_round-Reported_example =
    monitor_round-Reported decimal settings round {n = 570} {t = codes "70.0"} {e = codes "-100.0"}
      decimal-ReadsBack (codes "-102.0", refl) refl refl refl (λ row. refl, λ mail. refl)
