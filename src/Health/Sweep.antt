-- ===== src/Health/Sweep.antt =====
-- The sweep of test_receiver, PYTHON/IrisUtils/iris_health_monitor.py, turn by turn.
use mathlib.Core.Path.{subst}
use houdini_lab.Common.{
  ℕ, ◌≡◌, refl, sym, ◌∙◌, ap, Bool, true, false, ◌&&◌, ◌||◌, not, some, List, [], ◌∷◌,
  if◌then◌else◌,
}
use houdini_lab.Common.Int.{ℤ}
use houdini_lab.Common.Text.{Text}
use houdini_lab.Health.Receiver.{
  Reading, passed, unmarked, a, b, ab, Row, Sweep, both, add_row, log_1, log_2, log_if, reached_1,
  reached_2, rx_turn, turn_logged, rx_sweep,
}

-- Some gain passes.
abbrev pub any_gain : (ℕ → Bool) → List ℕ → Bool
any_gain p [] = false
any_gain p (g ∷ gs) = p g || any_gain p gs

or_same : (x : Bool) → x ≡ (x || false)
or_same true = refl
or_same false = refl

or_assoc : (x y z : Bool) → ((x || y) || z) ≡ (x || (y || z))
or_assoc true y z = refl
or_assoc false y z = refl

or_stop : (x r y : Bool) → r ≡ true → (x || r) ≡ (x || (r || y))
or_stop true r y h = refl
or_stop false true y h = refl
or_stop false false y h = cc

-- The three ways to log, as one assignment.
log_1-at :
    (x reached : Bool) (row : Row) (s : Sweep)
    → log_1 reached row (record s { ch_1_logged = x }) ≡ record s {
      ch_1_logged = x || reached;
      rows = if reached && not x then add_row row s.rows else s.rows;
    }
log_1-at true true row s = refl
log_1-at true false row s = refl
log_1-at false true row s = refl
log_1-at false false row s = refl

log_2-at :
    (x reached : Bool) (row : Row) (s : Sweep)
    → log_2 reached row (record s { ch_2_logged = x }) ≡ record s {
      ch_2_logged = x || reached;
      rows = if reached && not x then add_row row s.rows else s.rows;
    }
log_2-at true true row s = refl
log_2-at true false row s = refl
log_2-at false true row s = refl
log_2-at false false row s = refl

pub log_if-eq :
    (wanted : Bool) (row : Row) (s : Sweep)
    → log_if wanted row s ≡ record s { rows = if wanted then add_row row s.rows else s.rows }
log_if-eq true row s = refl
log_if-eq false row s = refl

module _ (limit : ℤ) (detailed : Bool) (serial : Text) (lo hi : ℕ) where
  abbrev pub turned : ℕ → Reading → Sweep → Sweep
  turned gain r s =
      let one : List Row =
        if reached_1 limit detailed r && not s.ch_1_logged
        then add_row (both passed a serial lo hi gain r) s.rows
        else s.rows in
      record {
        ch_1_logged = s.ch_1_logged || reached_1 limit detailed r;
        ch_2_logged = s.ch_2_logged || reached_2 limit detailed r;
        last = some (gain, r);
        rows =
            if reached_2 limit detailed r && not s.ch_2_logged
            then add_row (both passed b serial lo hi gain r) one
            else one;
      }

  rx_turn-turned :
      (gain : ℕ) (r : Reading) (s : Sweep)
      → rx_turn limit detailed serial lo hi gain r s ≡ turned gain r s
  unfolding rx_turn
  rx_turn-turned gain r s =
      ap (log_2 (reached_2 limit detailed r) (both passed b serial lo hi gain r)) (
        log_1-at s.ch_1_logged (reached_1 limit detailed r) (both passed a serial lo hi gain r)
          (record s { last = some (gain, r) }))
      ∙ log_2-at s.ch_2_logged (reached_2 limit detailed r) (both passed b serial lo hi gain r)
          (record s {
            ch_1_logged = s.ch_1_logged || reached_1 limit detailed r;
            last = some (gain, r);
            rows =
                if reached_1 limit detailed r && not s.ch_1_logged
                then add_row (both passed a serial lo hi gain r) s.rows
                else s.rows;
          })

  -- The state in which the next turn starts.
  abbrev pub noted : ℕ → Reading → Sweep → Sweep
  noted gain r s = record (turned gain r s) {
    rows =
        if detailed && not (turn_logged limit detailed serial lo hi r s)
        then add_row (both unmarked ab serial lo hi gain r) (turned gain r s).rows
        else (turned gain r s).rows;
  }

  pub rx_sweep-cons :
      (measure : ℕ → Reading) (gain : ℕ) (gains : List ℕ) (s : Sweep)
      → rx_sweep limit detailed serial lo hi measure (gain ∷ gains) s ≡ (
          if reached_1 limit detailed (measure gain) && reached_2 limit detailed (measure gain)
          then turned gain (measure gain) s
          else rx_sweep limit detailed serial lo hi measure gains (noted gain (measure gain) s))
  unfolding rx_sweep
  rx_sweep-cons measure gain gains s =
      let stop : Bool =
        reached_1 limit detailed (measure gain) && reached_2 limit detailed (measure gain) in
      let noting : Bool =
        detailed && not (turn_logged limit detailed serial lo hi (measure gain) s) in
      let row : Row = both unmarked ab serial lo hi gain (measure gain) in
      let resume : Sweep → Sweep = rx_sweep limit detailed serial lo hi measure gains in
      ap (λ t. if stop then t else resume (log_if noting row t))
        (rx_turn-turned gain (measure gain) s)
      ∙ ap (λ u. if stop then turned gain (measure gain) s else resume u)
          (log_if-eq noting row (turned gain (measure gain) s))

  sweep_if :
      (x y : Bool) (f : Sweep → Bool) (t u : Sweep) (v : Bool)
      → (x ≡ true → y ≡ true → f t ≡ v)
      → f u ≡ v
      → f (if x && y then t else u) ≡ v
  sweep_if true true f t u v h k = h refl refl
  sweep_if true false f t u v h k = k
  sweep_if false y f t u v h k = k

  pub rx_sweep-ch_1 :
      (measure : ℕ → Reading) (gains : List ℕ) (s : Sweep)
      → (rx_sweep limit detailed serial lo hi measure gains s).ch_1_logged
        ≡ (s.ch_1_logged || any_gain (λ g. reached_1 limit detailed (measure g)) gains)
  unfolding rx_sweep
  rx_sweep-ch_1 measure [] s = or_same s.ch_1_logged
  rx_sweep-ch_1 measure (gain ∷ gains) s =
      ap (λ t. t.ch_1_logged) (rx_sweep-cons measure gain gains s)
      ∙ sweep_if (reached_1 limit detailed (measure gain)) (reached_2 limit detailed (measure gain))
          (λ t. t.ch_1_logged) (turned gain (measure gain) s)
          (rx_sweep limit detailed serial lo hi measure gains (noted gain (measure gain) s)) _
          (λ x y. or_stop s.ch_1_logged _ _ x)
          (rx_sweep-ch_1 measure gains (noted gain (measure gain) s) ∙ or_assoc s.ch_1_logged _ _)

  pub rx_sweep-ch_2 :
      (measure : ℕ → Reading) (gains : List ℕ) (s : Sweep)
      → (rx_sweep limit detailed serial lo hi measure gains s).ch_2_logged
        ≡ (s.ch_2_logged || any_gain (λ g. reached_2 limit detailed (measure g)) gains)
  unfolding rx_sweep
  rx_sweep-ch_2 measure [] s = or_same s.ch_2_logged
  rx_sweep-ch_2 measure (gain ∷ gains) s =
      ap (λ t. t.ch_2_logged) (rx_sweep-cons measure gain gains s)
      ∙ sweep_if (reached_1 limit detailed (measure gain)) (reached_2 limit detailed (measure gain))
          (λ t. t.ch_2_logged) (turned gain (measure gain) s)
          (rx_sweep limit detailed serial lo hi measure gains (noted gain (measure gain) s)) _
          (λ x y. or_stop s.ch_2_logged _ _ y)
          (rx_sweep-ch_2 measure gains (noted gain (measure gain) s) ∙ or_assoc s.ch_2_logged _ _)

  -- The turns leave a latest reading.
  abbrev pub Bound : Sweep → Type 0
  Bound s = (gain : ℕ) × (r : Reading) × (s.last ≡ some (gain, r))

  if-Bound : (x : Bool) (t u : Sweep) → Bound t → Bound u → Bound (if x then t else u)
  if-Bound true t u h k = h
  if-Bound false t u h k = k

  pub rx_sweep-Bound :
      (measure : ℕ → Reading) (gains : List ℕ) (s : Sweep)
      → Bound s
      → Bound (rx_sweep limit detailed serial lo hi measure gains s)
  unfolding rx_sweep
  rx_sweep-Bound measure [] s h = h
  rx_sweep-Bound measure (gain ∷ gains) s h =
      subst Bound (sym (rx_sweep-cons measure gain gains s)) (
        if-Bound
          (reached_1 limit detailed (measure gain) && reached_2 limit detailed (measure gain))
          (turned gain (measure gain) s) _ (gain, measure gain, refl)
          (rx_sweep-Bound measure gains (noted gain (measure gain) s) (gain, measure gain, refl)))

  -- The first turn binds it.
  pub swept-Bound :
      (measure : ℕ → Reading) (gain : ℕ) (gains : List ℕ) (s : Sweep)
      → Bound (rx_sweep limit detailed serial lo hi measure (gain ∷ gains) s)
  swept-Bound measure gain gains s = subst Bound (sym (rx_sweep-cons measure gain gains s)) (
      if-Bound (reached_1 limit detailed (measure gain) && reached_2 limit detailed (measure gain))
        (turned gain (measure gain) s) _ (gain, measure gain, refl)
        (rx_sweep-Bound measure gains (noted gain (measure gain) s) (gain, measure gain, refl)))
