-- ===== src/Health/LogAxes.antt =====
-- The axes that process_rx_log of PYTHON/IrisUtils/iris_health_monitor.py hands to the plots.
use mathlib.Core.Path.{subst}
use houdini_lab.Common.{
  ℕ, suc, ◌≡◌, refl, sym, Bool, true, false, none, some, List, [], ◌∷◌, ◌++◌, arith, length,
  length-append, inl, inr, Bool-cases,
}
use houdini_lab.Common.Int.{ℤ}
use houdini_lab.Common.Text.{Text, text_eq}
use houdini_lab.Health.Result.{unbound_local_error, ok, ◌>>=◌, or_raise, bind-Ends, through}
use houdini_lab.Health.Logs.{
  LogRow, Axes, no_axes, flush, start, extend, RxLog, rx_point, rx_first, rx_next, rx_row, rx_rows,
  process_rx_log,
}

-- Lists of the same lengths, one by one.
abbrev pub SameLengths : {A B : Type 0} → List (List A) → List (List B) → Type 0
SameLengths [] [] = Unit {0}
SameLengths [] (y ∷ ys) = ⊥
SameLengths (x ∷ xs) [] = ⊥
SameLengths (x ∷ xs) (y ∷ ys) = (length x ≡ length y) × SameLengths xs ys

SameLengths-append :
    {A B : Type 0} (xs : List (List A)) (ys : List (List B)) (x : List A) (y : List B)
    → SameLengths xs ys
    → length x ≡ length y
    → SameLengths (xs ++ (x ∷ [])) (ys ++ (y ∷ []))
SameLengths-append [] [] x y h e = (e, tt)
SameLengths-append [] (z ∷ ys) x y h e = absurd h
SameLengths-append (z ∷ xs) [] x y h e = absurd h
SameLengths-append (z ∷ xs) (w ∷ ys) x y h e = (h.0, SameLengths-append xs ys x y h.1 e)

-- The axes of one channel fit each other point by point, and they are as many as `n`.
pub record Fitting (n : ℕ) (s : Axes) : Type 0 where
  pub powers : SameLengths s.axis_x s.axis_y
  pub noises : SameLengths s.axis_x s.noise_floor
  pub power_buff : length s.axis_x_buff ≡ length s.axis_y_buff
  pub noise_buff : length s.axis_x_buff ≡ length s.axis_noise_buff
  pub as_many : length s.axis_x ≡ n

pub flush-Fitting : (n : ℕ) (s : Axes) → Fitting n s → Fitting (suc n) (flush s)
flush-Fitting n s f = record {
  powers = SameLengths-append s.axis_x s.axis_y _ _ f.powers f.power_buff;
  noises = SameLengths-append s.axis_x s.noise_floor _ _ f.noises f.noise_buff;
  power_buff = f.power_buff;
  noise_buff = f.noise_buff;
  as_many = omega (arith, f.as_many, length-append s.axis_x (s.axis_x_buff ∷ []));
}

pub start-Fitting :
    (n gain : ℕ) (power noise : ℤ) (s : Axes) → Fitting n s → Fitting n (start gain power noise s)
start-Fitting n gain power noise s f = record {
  powers = f.powers;
  noises = f.noises;
  power_buff = refl;
  noise_buff = refl;
  as_many = f.as_many;
}

pub extend-Fitting :
    (n gain : ℕ) (power noise : ℤ) (s : Axes) → Fitting n s → Fitting n (extend gain power noise s)
extend-Fitting n gain power noise s f = record {
  powers = f.powers;
  noises = f.noises;
  power_buff = omega (
    arith,
    f.power_buff,
    length-append s.axis_x_buff (gain ∷ []),
    length-append s.axis_y_buff (power ∷ []),
  );
  noise_buff = omega (
    arith,
    f.noise_buff,
    length-append s.axis_x_buff (gain ∷ []),
    length-append s.axis_noise_buff (noise ∷ []),
  );
  as_many = f.as_many;
}

rx_point-Fitting :
    (n : ℕ) (thresh : ℤ) (gain : ℕ) (power noise : ℤ) (reached : Bool) (s : Axes)
    → Fitting n s
    → Fitting n (rx_point thresh gain power noise reached s).0
rx_point-Fitting n thresh gain power noise true s f = f
rx_point-Fitting n thresh gain power noise false s f = extend-Fitting n gain power noise s f

-- One serial more than finished axes: that of the unit that is being read.
abbrev Reading : RxLog → Type 0
Reading s = (n : ℕ) × (length s.rx_serials ≡ suc n) × Fitting n s.axes_0 × Fitting n s.axes_1

ok_same : (x y : RxLog) → ok x ≡ ok y → x ≡ y
ok_same x y h = cc

rx_row-Reading :
    (thresh : ℤ) (row : LogRow) (s t : RxLog) → Reading s → rx_row thresh row s ≡ ok t → Reading t
unfolding rx_row
rx_row-Reading thresh row s t (n, e, f, g) h = elim (Bool-cases (text_eq s.uut_iris row.uut_iris)) [
  | inl same ↦ elim (bind-Ends (or_raise s.reached_thresh_0 unbound_local_error) _ (rw same at h)) [
    | through r0 k l ↦ elim (bind-Ends (or_raise s.reached_thresh_1 unbound_local_error) _ l) [
      | through r1 k' l' ↦ subst Reading (ok_same _ _ l') (
        n,
        e,
        rx_point-Fitting n thresh _ _ _ r0 s.axes_0 f,
        rx_point-Fitting n thresh _ _ _ r1 s.axes_1 g,
      )
    ]
  ]
  | inr other ↦ subst Reading (ok_same _ _ (rw other at h)) (
    suc n,
    omega (arith, e, length-append s.rx_serials (row.uut_iris ∷ [])),
    start-Fitting (suc n) _ _ _ _ (flush-Fitting n s.axes_0 f),
    start-Fitting (suc n) _ _ _ _ (flush-Fitting n s.axes_1 g),
  )
]

rx_rows-Reading :
    (thresh : ℤ) (rows : List LogRow) (s t : RxLog)
    → Reading s
    → rx_rows thresh rows s ≡ ok t
    → Reading t
unfolding rx_rows
rx_rows-Reading thresh [] s t r h = subst Reading (ok_same _ _ h) r
rx_rows-Reading thresh (row ∷ rows) s t r h = elim (bind-Ends (rx_row thresh row s) _ h) [
  | through u k l ↦ rx_rows-Reading thresh rows u t (rx_row-Reading thresh row s u r k) l
]

pub no_axes-Fitting : Fitting 0 no_axes
no_axes-Fitting = record {
  powers = tt;
  noises = tt;
  power_buff = refl;
  noise_buff = refl;
  as_many = refl;
}

out_same : (x y : Axes × Axes × List Text) → ok x ≡ ok y → x ≡ y
out_same x y h = cc

abbrev Whole : Axes × Axes × List Text → Type 0
Whole r = Fitting (length r.2) r.0 × Fitting (length r.2) r.1

finished-Whole : (s : RxLog) → Reading s → Whole (flush s.axes_0, flush s.axes_1, s.rx_serials)
finished-Whole s (n, e, f, g) = (
  subst (λ k. Fitting k (flush s.axes_0)) (sym e) (flush-Fitting n s.axes_0 f),
  subst (λ k. Fitting k (flush s.axes_1)) (sym e) (flush-Fitting n s.axes_1 g),
)

axes_fit :
    (thresh : ℤ) (rows : List LogRow) (r : Axes × Axes × List Text)
    → process_rx_log thresh rows ≡ ok r
    → Whole r
unfolding process_rx_log
axes_fit thresh rows r h = elim (bind-Ends (rx_rows thresh rows _) _ h) [
  | through s k l ↦ subst Whole (out_same _ _ l) (
      finished-Whole s
        (rx_rows-Reading thresh rows _ s (0, refl, no_axes-Fitting, no_axes-Fitting) k))
]

-- Both flags have a value.
abbrev Flagged : RxLog → Type 0
Flagged s = (x : Bool) × (y : Bool) × (s.reached_thresh_0 ≡ some x) × (s.reached_thresh_1 ≡ some y)

rx_row-Flagged :
    (thresh : ℤ) (row : LogRow) (s : RxLog)
    → Flagged s
    → (t : RxLog) × (rx_row thresh row s ≡ ok t) × Flagged t
unfolding rx_row
rx_row-Flagged thresh row s (x, y, e, f) = elim (Bool-cases (text_eq s.uut_iris row.uut_iris)) [
  | inl same ↦ (rx_next thresh row x y s, rw (same, ◌>>=◌, e, f), (_, _, refl, refl))
  | inr other ↦ (rx_first row s, rw other, (false, false, refl, refl))
]

rx_rows-Flagged :
    (thresh : ℤ) (rows : List LogRow) (s : RxLog)
    → Flagged s
    → (t : RxLog) × (rx_rows thresh rows s ≡ ok t)
unfolding rx_rows
rx_rows-Flagged thresh [] s f = (s, refl)
rx_rows-Flagged thresh (row ∷ rows) s f =
    let (t, e, g) = rx_row-Flagged thresh row s f in
    let (u, k) = rx_rows-Flagged thresh rows t g in (u, rw (e, ◌>>=◌) k)

-- A log whose first row names a unit is read to its end, whatever follows. There is one pair of
-- axes for each serial and channel, with as many gains as powers and noise floors.
process_rx_log-Fitting :
    (thresh : ℤ) (row : LogRow) (rows : List LogRow)
    → text_eq [] row.uut_iris ≡ false
    → (axes_0 : Axes) × (axes_1 : Axes) × (serials : List Text) × (process_rx_log thresh
          (row ∷ rows)
        ≡ ok (axes_0, axes_1, serials))
      × Fitting (length serials) axes_0
      × Fitting (length serials) axes_1
unfolding process_rx_log rx_rows rx_row
process_rx_log-Fitting thresh row rows named =
    let first : RxLog = rx_first row (record {
      uut_iris = [];
      reached_thresh_0 = none;
      reached_thresh_1 = none;
      axes_0 = no_axes;
      axes_1 = no_axes;
      rx_serials = [] ∷ [];
    }) in
    let (t, e) = rx_rows-Flagged thresh rows first (false, false, refl, refl) in
    let eq : process_rx_log thresh (row ∷ rows)
        ≡ ok (flush t.axes_0, flush t.axes_1, t.rx_serials) =
      rw (named, ◌>>=◌, e) in
    let (f, g) = axes_fit thresh (row ∷ rows) _ eq in
    (flush t.axes_0, flush t.axes_1, t.rx_serials, eq, f, g)
