-- ===== src/Health/Verdicts.antt =====
-- What test_receiver of PYTHON/IrisUtils/iris_health_monitor.py decides.
use houdini_lab.Common.{
  ℕ, ◌+◌, ◌<◌, ◌≤◌, ◌≡◌, refl, ◌∙◌, ap, Bool, true, false, ◌&&◌, not, Option, none, some, List, [],
  ◌∷◌, ◌++◌, arith, length, get_elem?-get_or, get_elem?-some,
}
use houdini_lab.Common.Int.{ℤ}
use houdini_lab.Common.Text.{Text}
use houdini_lab.Health.Result.{unbound_local_error, ok, raised, ◌>>=◌, or_raise}
use houdini_lab.Health.Irises.{Irises}
use houdini_lab.Health.Gains.{
  Limits, range_from, range-ok, range_from-cons, set_gain_limits-Ordered,
}
use houdini_lab.Health.Receiver.{
  Reading, a, b, Row, Sweep, failed, both, reached_1, reached_2, rx_sweep, fail_row, rx_unit,
  rx_units, test_receiver,
}
use houdini_lab.Health.Limits.{limits_of, last_limits, last_limits-some, and_assoc, and_true}
use houdini_lab.Health.Sweep.{any_gain, Bound, rx_sweep-ch_1, rx_sweep-ch_2, swept-Bound}
use houdini_lab.Health.Rows.{verdicts, verdicts-append, bit, rx_sweep-Tallied}

module _ (limit : ℤ) (detailed : Bool) where
  -- The sweep has a gain at which each channel reaches the limit.
  abbrev pub passes : (ℕ → Reading) → List ℕ → Bool
  passes measure gains =
      any_gain (λ g. reached_1 limit detailed (measure g)) gains
      && any_gain (λ g. reached_2 limit detailed (measure g)) gains

  fail_row-a :
      (serial : Text) (lo hi : ℕ) (x : Bool) (s : Sweep)
      → Bound limit detailed serial lo hi s
      → (rows : List Row) × (fail_row limit detailed serial lo hi x a s ≡ ok rows)
        × (verdicts a rows ≡ bit (not x))
        × (verdicts b rows ≡ 0)
  fail_row-a serial lo hi true s h = ([], refl, refl, refl)
  fail_row-a serial lo hi false s (gain, r, e) =
      (both failed a serial lo hi gain r ∷ [], rw e, refl, refl)

  fail_row-b :
      (serial : Text) (lo hi : ℕ) (x : Bool) (s : Sweep)
      → Bound limit detailed serial lo hi s
      → (rows : List Row) × (fail_row limit detailed serial lo hi x b s ≡ ok rows)
        × (verdicts a rows ≡ 0)
        × (verdicts b rows ≡ bit (not x))
  fail_row-b serial lo hi true s h = ([], refl, refl, refl)
  fail_row-b serial lo hi false s (gain, r, e) =
      (both failed b serial lo hi gain r ∷ [], rw e, refl, refl)

  one_verdict : (x : Bool) → bit x + bit (not x) ≡ 1
  one_verdict true = refl
  one_verdict false = refl

  -- A unit that is swept over some gains gets exactly one verdict for each channel, and it passes
  -- if and only if each channel reaches the limit at some gain of the sweep: the sweep that stops
  -- early misses none.
  rx_unit-verdict :
      (serial : Text) (lo hi : ℕ) (measure : ℕ → Reading) (gain : ℕ) (gains : List ℕ)
      → (rows : List Row) × (rx_unit limit detailed serial lo hi measure (gain ∷ gains)
          ≡ ok (passes measure (gain ∷ gains), rows))
        × (verdicts a rows ≡ 1)
        × (verdicts b rows ≡ 1)
  unfolding rx_unit
  rx_unit-verdict serial lo hi measure gain gains =
      let start : Sweep = record {
        ch_1_logged = false;
        ch_2_logged = false;
        last = none;
        rows = [];
      } in
      let s : Sweep = rx_sweep limit detailed serial lo hi measure (gain ∷ gains) start in
      let bound = swept-Bound limit detailed serial lo hi measure gain gains start in
      let (one, two) =
        rx_sweep-Tallied limit detailed serial lo hi measure (gain ∷ gains) start (refl, refl) in
      let (fails, e, f1, f2) = fail_row-a serial lo hi s.ch_1_logged s bound in
      let (fails', e', g1, g2) = fail_row-b serial lo hi s.ch_2_logged s bound in
      (
        s.rows ++ (fails ++ fails'),
        ap
              (λ r. r >>= λ rows.
                fail_row limit detailed serial lo hi s.ch_2_logged b s >>= λ rows'.
                ok (s.ch_1_logged && s.ch_2_logged, s.rows ++ (rows ++ rows')))
              e
            ∙ ap (λ r. r >>= λ rows. ok (s.ch_1_logged && s.ch_2_logged, s.rows ++ (fails ++ rows)))
                e'
            ∙ ap (λ x. ok (x && s.ch_2_logged, s.rows ++ (fails ++ fails')))
                (rx_sweep-ch_1 limit detailed serial lo hi measure (gain ∷ gains) start)
            ∙ ap
                (λ y. ok (
                  any_gain (λ g. reached_1 limit detailed (measure g)) (gain ∷ gains) && y,
                  s.rows ++ (fails ++ fails'),
                ))
                (rx_sweep-ch_2 limit detailed serial lo hi measure (gain ∷ gains) start),
        omega (
          arith,
          verdicts-append a s.rows (fails ++ fails'),
          verdicts-append a fails fails',
          one,
          f1,
          g1,
          one_verdict s.ch_1_logged,
        ),
        omega (
          arith,
          verdicts-append b s.rows (fails ++ fails'),
          verdicts-append b fails fails',
          two,
          f2,
          g2,
          one_verdict s.ch_2_logged,
        ),
      )

  nonempty-verdict :
      (serial : Text) (lo hi : ℕ) (measure : ℕ → Reading) (gain : ℕ) (rest gains : List ℕ)
      → gains ≡ gain ∷ rest
      → (rows : List Row) × (rx_unit limit detailed serial lo hi measure gains
          ≡ ok (passes measure gains, rows))
        × (verdicts a rows ≡ 1)
        × (verdicts b rows ≡ 1)
  nonempty-verdict serial lo hi measure gain rest gains e =
      let (rows, eq, one, two) = rx_unit-verdict serial lo hi measure gain rest in
      (rows, rw e eq, one, two)

  -- The gains of the unit i.
  abbrev pub gains_of : ℕ → ℕ → Irises → ℕ → List ℕ
  gains_of gain_step freq irises i =
      range_from ((limits_of freq irises i).rx_hi + 1) (limits_of freq irises i).rx_lo
        ((limits_of freq irises i).rx_hi + 1) gain_step

  -- Every unit from i on passes.
  abbrev pub all_pass : ℕ → ℕ → (ℕ → ℕ → Reading) → Irises → ℕ → List Text → Bool
  all_pass gain_step freq measure irises i [] = true
  all_pass gain_step freq measure irises i (serial ∷ serials) =
      passes (measure i) (gains_of gain_step freq irises i)
      && all_pass gain_step freq measure irises (i + 1) serials

  rx_units-all_pass :
      (gain_step freq : ℕ) (measure : ℕ → ℕ → Reading) (irises : Irises) (i : ℕ)
      (serials : List Text) (pf : Bool) (latest : Option Limits)
      → 0 < gain_step
      → i + length serials ≤ length irises.uut_sdrs
      → length irises.uut_sdrs ≤ length irises.uut_frontends
      → (rows : List Row) × (rx_units limit detailed gain_step freq measure irises i serials pf
            latest
          ≡ ok (
            pf && all_pass gain_step freq measure irises i serials,
            last_limits freq irises i serials latest,
            rows,
          ))
        × (verdicts a rows ≡ length serials)
        × (verdicts b rows ≡ length serials)
  unfolding rx_units
  rx_units-all_pass gain_step freq measure irises i [] pf latest p h k =
      ([], ap (λ x. ok (x, latest, [])) (and_true pf), refl, refl)
  rx_units-all_pass gain_step freq measure irises i (serial ∷ serials) pf latest p h k =
      let frontend = get_elem?-get_or irises.uut_frontends i [] (omega arith) in
      let (sdr, found) = get_elem?-some irises.uut_sdrs i (omega arith) in
      let l : Limits = limits_of freq irises i in
      let (rest, gains) =
        range_from-cons l.rx_lo (l.rx_hi + 1) gain_step (set_gain_limits-Ordered freq _).0 in
      let (unit, e, one, two) =
        nonempty-verdict serial l.rx_lo l.rx_hi (measure i) l.rx_lo rest _ gains in
      let (rows, e', ones, twos) =
        rx_units-all_pass gain_step freq measure irises (i + 1) serials
          (pf && passes (measure i) (gains_of gain_step freq irises i)) (some l) p (omega arith)
          k in
      (
        unit ++ rows,
        rw (frontend, found, or_raise, ◌>>=◌, range-ok l.rx_lo (l.rx_hi + 1) gain_step p, e, e')
            (ap (λ x. ok (x, last_limits freq irises (i + 1) serials (some l), unit ++ rows))
              (and_assoc pf _ _)),
        omega (arith, verdicts-append a unit rows),
        omega (arith, verdicts-append b unit rows),
      )

  -- With a step of 1 or more, and with units that stand beside at least as many frontends, the
  -- receiver test of one unit or more ends. It passes if and only if both channels of every unit
  -- reach the limit at some gain of the unit's range, and the log has exactly one verdict for each
  -- channel of each unit.
  pub test_receiver-verdicts :
      (gain_step freq : ℕ) (measure : ℕ → ℕ → Reading) (irises : Irises) (serial : Text)
      (serials : List Text)
      → 0 < gain_step
      → irises.uut_serials ≡ serial ∷ serials
      → length irises.uut_serials ≤ length irises.uut_sdrs
      → length irises.uut_sdrs ≤ length irises.uut_frontends
      → (lo : ℕ) × (hi : ℕ) × (rows : List Row) × (test_receiver limit detailed gain_step freq
            measure irises
          ≡ ok (all_pass gain_step freq measure irises 0 irises.uut_serials, lo, hi, rows))
        × (verdicts a rows ≡ length irises.uut_serials)
        × (verdicts b rows ≡ length irises.uut_serials)
  unfolding test_receiver
  test_receiver-verdicts gain_step freq measure irises serial serials p units h k =
      let (rows, e, one, two) =
        rx_units-all_pass gain_step freq measure irises 0 irises.uut_serials true none p
          (omega (arith, h)) k in
      let (l, last) = last_limits-some freq irises 1 serials (limits_of freq irises 0) in
      (
        l.rx_lo,
        l.rx_hi,
        rows,
        ap
              (λ r. r >>= λ x.
                or_raise x.1 unbound_local_error >>= λ l. ok (x.0, l.rx_lo, l.rx_hi, x.2))
              e
            ∙ ap
                (λ o. or_raise o unbound_local_error >>= λ l. ok (
                  all_pass gain_step freq measure irises 0 irises.uut_serials,
                  l.rx_lo,
                  l.rx_hi,
                  rows,
                ))
                (ap (λ ss. last_limits freq irises 0 ss none) units ∙ last),
        one,
        two,
      )

  -- Without a unit the test raises an UnboundLocalError: its limits have no value.
  test_receiver-no_unit :
      (gain_step freq : ℕ) (measure : ℕ → ℕ → Reading) (irises : Irises)
      → irises.uut_serials ≡ []
      → test_receiver limit detailed gain_step freq measure irises ≡ raised unbound_local_error
  unfolding test_receiver rx_units
  test_receiver-no_unit gain_step freq measure irises none_there = rw none_there
