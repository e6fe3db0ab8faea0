-- ===== src/Dashboard/Monitor/Rounds.antt =====
-- What the rounds of the monitor do: WEBGUI/renew.py, background_thread.
use houdini_lab.Common.{
  none, ℕ, ◌≡◌, refl, Bool, true, false, Option, some, List, [], ◌∷◌, ◌++◌, if◌then◌else◌,
}
use houdini_lab.Common.Text.{Text, codes}
use houdini_lab.Dashboard.Sensors.{PyFloat, Status}
use houdini_lab.Dashboard.Checks.{check_overheat, check_errors}
use houdini_lab.Dashboard.Checks.Alarm.{
  Decides, holds, fails, Readable, AllReadable, ReadsBack, overheat-Decides, errors-Decides,
  get_sensors-AllReadable,
}
use houdini_lab.Dashboard.Emails.{Mail, send_email_overheat, send_email_errors}
use houdini_lab.Dashboard.Monitor.{
  sleep_for, Settings, Round, Row, Event, emit, sleep, add, commit, send, Done, and_then,
  sensors_of, make_row, log_rows, send_if, alerts, monitor_round,
}

Decides-some : {P : Type 0} {b : Option Bool} → Decides P b → (o : Bool) × (b ≡ some o)
Decides-some (holds _) = (true, refl)
Decides-some (fails _) = (false, refl)

module _ (set : Settings) (overheat errors : Bool) (utc_datetime : Text) where
  -- The row of an Iris, under the alarms of the round.
  abbrev pub row_of : Status → Row
  row_of s = record {
    timestamp = utc_datetime;
    servername = set.server;
    iris_sn = s.sn;
    overheat_thresh = set.overheat_thresh;
    lms7_temp = s.lms7temp;
    zynq_temp = s.zynqtemp;
    tx_temp = s.txtemp;
    rx_temp = s.rxtemp;
    overheat_warning = overheat;
    error_warning = errors;
  }

  abbrev pub logged : List Status → List Event
  logged [] = []
  logged (s ∷ ss) = add (row_of s) ∷ commit ∷ logged ss

  abbrev pub mails : List Status → List Event
  mails ss =
      (if overheat
        then send (send_email_overheat set.server set.recipient utc_datetime ss set.overheat_thresh)
          ∷ []
        else [])
      ++ (if errors
          then send (send_email_errors set.server set.recipient utc_datetime ss set.error_thresh)
            ∷ []
          else [])

send_both :
    (sends : Mail → Bool) (a b : Bool) (m n : Mail)
    → ((mail : Mail) → sends mail ≡ true)
    → and_then (send_if sends (some a) m) (send_if sends (some b) n)
      ≡ ((if a then send m ∷ [] else []) ++ (if b then send n ∷ [] else []), true)
send_both sends true true m n h = rw (h m, h n) refl
send_both sends true false m n h = rw (h m) refl
send_both sends false true m n h = rw (h n) refl
send_both sends false false m n h = refl

slept :
    (rate : Option ℕ) {n : ℕ} {es : List Event}
    → rate ≡ some n
    → and_then (sleep_for rate) (es, true) ≡ (sleep n ∷ es, true)
slept rate h = rw h

slept_raised :
    (rate : Option ℕ) {n : ℕ} {es : List Event}
    → rate ≡ some n
    → and_then (sleep_for rate) (es, false) ≡ (sleep n ∷ es, false)
slept_raised rate h = rw h

module _ (py : PyFloat) (set : Settings) where
  open py use {Float, float, gt, le}

  module _ (ss : List Status) (overheat errors : Bool) (utc_datetime : Text)
      (hot : check_overheat py ss set.overheat_thresh ≡ some overheat)
      (bad : check_errors py ss set.error_thresh ≡ some errors) where
    make_row-eq :
        (s : Status)
        → make_row py set utc_datetime ss s ≡ some (row_of set overheat errors utc_datetime s)
    unfolding make_row
    make_row-eq s = rw (hot, bad)

    log_rows-eq :
        (stores : Row → Bool) (left : List Status)
        → ((row : Row) → stores row ≡ true)
        → log_rows py set stores utc_datetime ss left
          ≡ (logged set overheat errors utc_datetime left, true)
    unfolding log_rows
    log_rows-eq stores [] h = refl
    log_rows-eq stores (s ∷ left) h =
        rw (make_row-eq s, h (row_of set overheat errors utc_datetime s), log_rows-eq stores left h)
          refl

    alerts-eq :
        (sends : Mail → Bool)
        → ((mail : Mail) → sends mail ≡ true)
        → alerts py set sends utc_datetime ss ≡ (mails set overheat errors utc_datetime ss, true)
    unfolding alerts
    alerts-eq sends h = rw (hot, bad) (send_both sends overheat errors _ _ h)

  -- The database takes every row, and the mail server every mail.
  abbrev pub Accepts : Round → Type 0
  Accepts r = ((row : Row) → r.stores row ≡ true) × ((mail : Mail) → r.sends mail ≡ true)

  -- What a round does to the sensors that it reports: it sleeps, shows them, logs one row for each
  -- and commits it, and sends the mails of the alarms that are set.
  abbrev pub Reported : Round → ℕ → List Status → Done → Type 0
  Reported r n ss done =
      (overheat : Bool) × (errors : Bool) × (check_overheat py ss set.overheat_thresh
        ≡ some overheat)
      × (check_errors py ss set.error_thresh ≡ some errors)
      × (done ≡ (
        sleep n
            ∷ emit ss r.utc_datetime set.server
            ∷ (logged set overheat errors r.utc_datetime ss
                ++ mails set overheat errors r.utc_datetime ss),
        true,
      ))

  sensors_of-AllReadable :
      (r : Round)
      → ReadsBack py
      → Readable py (codes "-102.0")
      → AllReadable py (sensors_of py set r)
  unfolding sensors_of
  sensors_of-AllReadable r reads code = get_sensors-AllReadable py _ _ _ reads code

  -- With a sleep and two thresholds that parse, and a database and a mail server that take what they are
  -- given, no round raises: whatever the network answers, the round sleeps, shows the reported sensors to the clients, logs one row for each and commits it,
  -- and sends the overheat mail and the error mail exactly if that alarm is set.
  pub monitor_round-Reported :
      (r : Round) {n : ℕ} {t e : Float}
      → ReadsBack py
      → Readable py (codes "-102.0")
      → set.refresh_rate ≡ some n
      → float set.overheat_thresh ≡ some t
      → float set.error_thresh ≡ some e
      → Accepts r
      → Reported r n (sensors_of py set r) (monitor_round py set r)
  unfolding monitor_round
  monitor_round-Reported r {n} {t} {e} reads code rate known known' (stored, sent) =
      let ss = sensors_of py set r in
      let readable = sensors_of-AllReadable r reads code in
      let (overheat, hot) =
        Decides-some (overheat-Decides py ss set.overheat_thresh readable known) in
      let (errors, bad) = Decides-some (errors-Decides py ss set.error_thresh readable known') in
      (
        overheat,
        errors,
        hot,
        bad,
        rw
            (
              log_rows-eq ss overheat errors r.utc_datetime hot bad r.stores ss stored,
              alerts-eq ss overheat errors r.utc_datetime hot bad r.sends sent,
            )
            (slept set.refresh_rate rate),
      )

  log_then_alerts-bad :
      (stores : Row → Bool) (sends : Mail → Bool) (utc_datetime : Text) (ss left : List Status)
      → check_overheat py ss set.overheat_thresh ≡ none
      → and_then (log_rows py set stores utc_datetime ss left) (alerts py set sends utc_datetime ss)
        ≡ ([], false)
  unfolding log_rows alerts make_row
  log_then_alerts-bad stores sends utc_datetime ss [] bad = rw bad
  log_then_alerts-bad stores sends utc_datetime ss (s ∷ left) bad = rw bad

  -- A threshold that is no float ends the thread in the first round, before a row is logged.
  monitor_round-bad_threshold :
      (r : Round) {n : ℕ}
      → set.refresh_rate ≡ some n
      → float set.overheat_thresh ≡ none
      → monitor_round py set r
        ≡ (sleep n ∷ emit (sensors_of py set r) r.utc_datetime set.server ∷ [], false)
  unfolding monitor_round
  monitor_round-bad_threshold r rate bad =
      rw
        (log_then_alerts-bad r.stores r.sends r.utc_datetime (sensors_of py set r)
          (sensors_of py set r) (unfold check_overheat in rw bad))
        (slept_raised set.refresh_rate rate)
