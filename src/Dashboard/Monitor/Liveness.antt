-- ===== src/Dashboard/Monitor/Liveness.antt =====
-- The monitor over any number of rounds: WEBGUI/renew.py, background_thread.
use houdini_lab.Common.{
  ℕ, ◌+◌, ◌≡◌, refl, Bool, true, false, some, List, [], ◌∷◌, ◌++◌, arith, length, All,
}
use houdini_lab.Common.Text.{Text, codes}
use houdini_lab.Dashboard.Sensors.{PyFloat, Status}
use houdini_lab.Dashboard.Checks.Alarm.{Readable, ReadsBack}
use houdini_lab.Dashboard.Monitor.{
  Settings, Round, Event, commit, Done, and_then, sensors_of, monitor_round, monitor_rounds,
  background_thread,
}
use houdini_lab.Dashboard.Monitor.Rounds.{logged, mails, monitor_round-Reported, Accepts}

abbrev pub is_commit : Event → ℕ
is_commit commit = 1
is_commit _ = 0

abbrev pub commits : List Event → ℕ
commits [] = 0
commits (e ∷ es) = is_commit e + commits es

commits-append : (es fs : List Event) → commits (es ++ fs) ≡ commits es + commits fs
commits-append [] fs = omega arith
commits-append (e ∷ es) fs = omega (arith, commits-append es fs)

commits-logged :
    (set : Settings) (o e : Bool) (now : Text) (ss : List Status)
    → commits (logged set o e now ss) ≡ length ss
commits-logged set o e now [] = refl
commits-logged set o e now (s ∷ ss) = omega (arith, commits-logged set o e now ss)

commits-mails :
    (set : Settings) (o e : Bool) (now : Text) (ss : List Status)
    → commits (mails set o e now ss) ≡ 0
commits-mails set true true now ss = refl
commits-mails set true false now ss = refl
commits-mails set false true now ss = refl
commits-mails set false false now ss = refl

-- The Irises reported in the rounds, counted once for each round.
abbrev pub reports : PyFloat → Settings → List Round → ℕ
reports py set [] = 0
reports py set (r ∷ rs) = length (sensors_of py set r) + reports py set rs

-- The thread goes on, and has made so many commits.
abbrev pub Commits : ℕ → Done → Type 0
Commits n (es, alive) = (alive ≡ true) × (commits es ≡ n)

and_then-Commits :
    (a b : Done) (m n : ℕ) → Commits m a → Commits n b → Commits (m + n) (and_then a b)
and_then-Commits (es, true) (fs, alive) m n h k =
    (k.0, omega (arith, commits-append es fs, h.1, k.1))
and_then-Commits (es, false) b m n h k = absurd (ground arith)

module _ (py : PyFloat) (set : Settings) {n : ℕ} {t e : py.Float} (reads : ReadsBack py)
    (code : Readable py (codes "-102.0")) (rate : set.refresh_rate ≡ some n)
    (known : py.float set.overheat_thresh ≡ some t)
    (known' : py.float set.error_thresh ≡ some e) where
  monitor_round-Commits :
      (r : Round)
      → Accepts py set r
      → Commits (length (sensors_of py set r)) (monitor_round py set r)
  monitor_round-Commits r accepts =
      let (o, b, hot, bad, done) =
        monitor_round-Reported py set r reads code rate known known' accepts in
      rw done (
        refl,
        omega (
          arith,
          commits-append (logged set o b r.utc_datetime (sensors_of py set r))
              (mails set o b r.utc_datetime (sensors_of py set r)),
          commits-logged set o b r.utc_datetime (sensors_of py set r),
          commits-mails set o b r.utc_datetime (sensors_of py set r),
        ),
      )

  monitor_rounds-Commits :
      (rs : List Round)
      → All (Accepts py set) rs
      → Commits (reports py set rs) (monitor_rounds py set rs)
  unfolding monitor_rounds
  monitor_rounds-Commits [] h = (refl, refl)
  monitor_rounds-Commits (r ∷ rs) h =
      and_then-Commits _ _ _ _ (monitor_round-Commits r h.0) (monitor_rounds-Commits rs h.1)

  -- With a sleep and two thresholds that parse, and rounds in which the database and the mail server take
  -- what they are given, the thread never ends, and it commits one row for each Iris that a round reports, over any number of rounds.
  pub background_thread-Commits :
      (first : Round) (rs : List Round)
      → All (Accepts py set) rs
      → Commits (reports py set rs) (background_thread py set first rs)
  unfolding background_thread
  background_thread-Commits first rs h =
      let (alive, count) = monitor_rounds-Commits rs h in (alive, omega (arith, count))
