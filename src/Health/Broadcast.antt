-- ===== src/Health/Broadcast.antt =====
-- What test_transmitter of PYTHON/IrisUtils/iris_health_monitor.py decides.
use houdini_lab.Common.{
  ℕ, ◌+◌, ◌<◌, ◌≤◌, ◌≡◌, refl, ◌∙◌, ap, Bool, true, false, ◌&&◌, Option, none, some, List, [], ◌∷◌,
  ◌++◌, arith, length, get_elem?-get_or, get_elem?-some,
}
use houdini_lab.Common.Int.{ℤ}
use houdini_lab.Common.Text.{Text}
use houdini_lab.Health.Result.{unbound_local_error, ok, ◌>>=◌, or_raise}
use houdini_lab.Health.Irises.{Irises}
use houdini_lab.Health.Gains.{
  Limits, range_from, range-ok, range_from-cons, set_gain_limits-Ordered,
}
use houdini_lab.Health.Limits.{limits_of, last_limits, last_limits-some, and_assoc, and_true}
use houdini_lab.Health.Receiver.{Reading, Channel, a, b, Row, reached_1, reached_2}
use houdini_lab.Health.Transmitter.{on_a, on_b, tx_channel, tx_units, test_transmitter}
use houdini_lab.Health.Channel.{heard, tx_channel-heard}

module _ (limit : ℤ) (detailed : Bool) (golden_ant : Text) where
  -- The golden antenna hears the channel at some gain.
  abbrev pub hears : (ℕ → Reading) → List ℕ → Bool
  hears measure gains =
      heard (on_a limit detailed golden_ant) (on_b limit detailed golden_ant)
        (λ g. reached_1 limit detailed (measure g)) (λ g. reached_2 limit detailed (measure g))
        gains

  nonempty-heard :
      (serial : Text) (lo hi : ℕ) (ch : Channel) (measure : ℕ → Reading) (gain : ℕ)
      (rest gains : List ℕ)
      → gains ≡ gain ∷ rest
      → (rows : List Row) × (tx_channel limit detailed golden_ant serial lo hi ch measure gains
          ≡ ok (hears measure gains, rows))
  nonempty-heard serial lo hi ch measure gain rest gains e =
      let (rows, eq) =
        tx_channel-heard limit detailed golden_ant serial lo hi ch measure gain rest in
      (rows, rw e eq)

  -- The transmit gains of the unit i.
  abbrev pub tx_gains_of : ℕ → ℕ → Irises → ℕ → List ℕ
  tx_gains_of gain_step freq irises i =
      range_from ((limits_of freq irises i).tx_hi + 1) (limits_of freq irises i).tx_lo
        ((limits_of freq irises i).tx_hi + 1) gain_step

  -- Both channels of every unit from i on are heard.
  abbrev pub all_heard : ℕ → ℕ → (ℕ → Channel → ℕ → Reading) → Irises → ℕ → List Text → Bool
  all_heard gain_step freq measure irises i [] = true
  all_heard gain_step freq measure irises i (serial ∷ serials) =
      hears (measure i a) (tx_gains_of gain_step freq irises i)
      && (hears (measure i b) (tx_gains_of gain_step freq irises i)
          && all_heard gain_step freq measure irises (i + 1) serials)

  tx_units-all_heard :
      (gain_step freq : ℕ) (measure : ℕ → Channel → ℕ → Reading) (irises : Irises) (i : ℕ)
      (serials : List Text) (pf : Bool) (latest : Option Limits)
      → 0 < gain_step
      → i + length serials ≤ length irises.uut_sdrs
      → length irises.uut_sdrs ≤ length irises.uut_frontends
      → (rows : List Row) × (tx_units limit detailed golden_ant gain_step freq measure irises i
            serials pf latest
          ≡ ok (
            pf && all_heard gain_step freq measure irises i serials,
            last_limits freq irises i serials latest,
            rows,
          ))
  unfolding tx_units
  tx_units-all_heard gain_step freq measure irises i [] pf latest p h k =
      ([], ap (λ x. ok (x, latest, [])) (and_true pf))
  tx_units-all_heard gain_step freq measure irises i (serial ∷ serials) pf latest p h k =
      let frontend = get_elem?-get_or irises.uut_frontends i [] (omega arith) in
      let (sdr, found) = get_elem?-some irises.uut_sdrs i (omega arith) in
      let l : Limits = limits_of freq irises i in
      let (rest, gains) =
        range_from-cons l.tx_lo (l.tx_hi + 1) gain_step (set_gain_limits-Ordered freq _).1 in
      let one : Bool = hears (measure i a) (tx_gains_of gain_step freq irises i) in
      let two : Bool = hears (measure i b) (tx_gains_of gain_step freq irises i) in
      let (first, e) = nonempty-heard serial l.tx_lo l.tx_hi a (measure i a) l.tx_lo rest _ gains in
      let (second, e') =
        nonempty-heard serial l.tx_lo l.tx_hi b (measure i b) l.tx_lo rest _ gains in
      let (rows, e'') =
        tx_units-all_heard gain_step freq measure irises (i + 1) serials ((pf && one) && two)
          (some l) p (omega arith) k in
      (
        first ++ (second ++ rows),
        rw
            (
              frontend,
              found,
              or_raise,
              ◌>>=◌,
              range-ok l.tx_lo (l.tx_hi + 1) gain_step p,
              e,
              e',
              e'',
            )
            (ap
              (λ x.
                ok (x, last_limits freq irises (i + 1) serials (some l), first ++ (second ++ rows)))
              (and_assoc (pf && one) _ _ ∙ and_assoc pf _ _)),
      )

  -- With a step of 1 or more, and with units that stand beside at least as many frontends, the
  -- transmitter test of one unit or more ends. It passes if and only if the golden antenna, A or
  -- B, receives the limit from both channels of every unit at some gain of the unit's range; any
  -- other antenna asks for nothing.
  pub test_transmitter-heard :
      (gain_step freq : ℕ) (measure : ℕ → Channel → ℕ → Reading) (irises : Irises) (serial : Text)
      (serials : List Text)
      → 0 < gain_step
      → irises.uut_serials ≡ serial ∷ serials
      → length irises.uut_serials ≤ length irises.uut_sdrs
      → length irises.uut_sdrs ≤ length irises.uut_frontends
      → (lo : ℕ) × (hi : ℕ) × (rows : List Row) × (test_transmitter limit detailed golden_ant
            gain_step freq measure irises
          ≡ ok (all_heard gain_step freq measure irises 0 irises.uut_serials, lo, hi, rows))
  unfolding test_transmitter
  test_transmitter-heard gain_step freq measure irises serial serials p units h k =
      let (rows, e) =
        tx_units-all_heard gain_step freq measure irises 0 irises.uut_serials true none p
          (omega (arith, h)) k in
      let (l, last) = last_limits-some freq irises 1 serials (limits_of freq irises 0) in
      (
        l.tx_lo,
        l.tx_hi,
        rows,
        ap
              (λ r. r >>= λ x.
                or_raise x.1 unbound_local_error >>= λ l. ok (x.0, l.tx_lo, l.tx_hi, x.2))
              e
            ∙ ap
                (λ o. or_raise o unbound_local_error >>= λ l. ok (
                  all_heard gain_step freq measure irises 0 irises.uut_serials,
                  l.tx_lo,
                  l.tx_hi,
                  rows,
                ))
                (ap (λ ss. last_limits freq irises 0 ss none) units ∙ last),
      )

  all_heard-deaf :
      (gain_step freq : ℕ) (measure : ℕ → Channel → ℕ → Reading) (irises : Irises) (i : ℕ)
      (serials : List Text)
      → on_a limit detailed golden_ant ≡ false
      → on_b limit detailed golden_ant ≡ false
      → all_heard gain_step freq measure irises i serials ≡ true
  all_heard-deaf gain_step freq measure irises i [] h k = refl
  all_heard-deaf gain_step freq measure irises i (serial ∷ serials) h k =
      rw (h, k, all_heard-deaf gain_step freq measure irises (i + 1) serials h k)

  -- A golden antenna that is neither A nor B lets every unit pass, whatever is received.
  pub test_transmitter-deaf :
      (gain_step freq : ℕ) (measure : ℕ → Channel → ℕ → Reading) (irises : Irises) (serial : Text)
      (serials : List Text)
      → on_a limit detailed golden_ant ≡ false
      → on_b limit detailed golden_ant ≡ false
      → 0 < gain_step
      → irises.uut_serials ≡ serial ∷ serials
      → length irises.uut_serials ≤ length irises.uut_sdrs
      → length irises.uut_sdrs ≤ length irises.uut_frontends
      → (lo : ℕ) × (hi : ℕ) × (rows : List Row) × (test_transmitter limit detailed golden_ant
            gain_step freq measure irises
          ≡ ok (true, lo, hi, rows))
  test_transmitter-deaf gain_step freq measure irises serial serials off off' p units h k =
      let (lo, hi, rows, e) =
        test_transmitter-heard gain_step freq measure irises serial serials p units h k in
      (
        lo,
        hi,
        rows,
        e
            ∙ ap (λ x. ok (x, lo, hi, rows))
                (all_heard-deaf gain_step freq measure irises 0 irises.uut_serials off off'),
      )
