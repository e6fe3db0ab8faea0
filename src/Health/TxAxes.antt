-- ===== src/Health/TxAxes.antt =====
-- The axes that process_tx_log of PYTHON/IrisUtils/iris_health_monitor.py hands to the plots.
use mathlib.Core.Path.{subst}
use houdini_lab.Common.{
  ℕ, suc, ◌+◌, ◌≡◌, refl, sym, ap, ◌∙◌, Bool, true, false, List, [], ◌∷◌, arith, if◌then◌else◌, inl,
  inr, Bool-cases,
}
use houdini_lab.Common.Text.{Text, text_eq, text_eq→eq}
use houdini_lab.Health.Logs.{LogRow, Axes, no_axes}
use houdini_lab.Health.LogAxes.{
  Fitting, flush-Fitting, start-Fitting, extend-Fitting, no_axes-Fitting,
}
use houdini_lab.Health.TxLog.{
  TxLog, is_a, tx_first, tx_next, tx_rows, tx_start, tx_end, process_tx_log,
}

-- How often the channel changes in the rows, from the channel that was read last.
abbrev pub changes : Text → List LogRow → ℕ
changes ch [] = 0
changes ch (row ∷ rows) = (if text_eq ch row.uut_ch then 0 else 1) + changes row.uut_ch rows

-- The finished axes of both channels.
abbrev Finished : ℕ → TxLog → Type 0
Finished k s = (n : ℕ) × (m : ℕ) × (n + m ≡ k) × Fitting n s.axes_0 × Fitting m s.axes_1

if-Finished :
    (c : Bool) (k : ℕ) (s t : TxLog) → Finished k s → Finished k t → Finished k (if c then s else t)
if-Finished true k s t f g = f
if-Finished false k s t f g = g

tx_first-Finished :
    (k : ℕ) (row : LogRow) (s : TxLog) → Finished k s → Finished (suc k) (tx_first row s)
tx_first-Finished k row s (n, m, e, f, g) =
    if-Finished (is_a row.uut_ch) (suc k) _ _
      (n, suc m, omega arith, start-Fitting n _ _ _ s.axes_0 f, flush-Fitting m s.axes_1 g)
      (suc n, m, omega arith, flush-Fitting n s.axes_0 f, start-Fitting m _ _ _ s.axes_1 g)

tx_next-Finished : (k : ℕ) (row : LogRow) (s : TxLog) → Finished k s → Finished k (tx_next row s)
tx_next-Finished k row s (n, m, e, f, g) =
    if-Finished (is_a s.uut_ch) k _ _ (n, m, e, extend-Fitting n _ _ _ s.axes_0 f, g)
      (n, m, e, f, extend-Fitting m _ _ _ s.axes_1 g)

tx_next-uut_ch : (row : LogRow) (s : TxLog) → (tx_next row s).uut_ch ≡ s.uut_ch
tx_next-uut_ch row s = elim (Bool-cases (is_a s.uut_ch)) [ inl e ↦ rw e | inr e ↦ rw e ]

tx_first-uut_ch : (row : LogRow) (s : TxLog) → (tx_first row s).uut_ch ≡ row.uut_ch
tx_first-uut_ch row s = elim (Bool-cases (is_a row.uut_ch)) [ inl e ↦ rw e | inr e ↦ rw e ]

if_true : {A : Type 0} {c : Bool} (x y : A) → c ≡ true → (if c then x else y) ≡ x
if_true x y h = rw h

if_false : {A : Type 0} {c : Bool} (x y : A) → c ≡ false → (if c then x else y) ≡ y
if_false x y h = rw h

-- A row that was read.
moved :
    (rows : List LogRow) (s : TxLog) (row : LogRow) {t : TxLog} {n m : ℕ}
    → (if text_eq s.uut_ch row.uut_ch then tx_next row s else tx_first row s) ≡ t
    → n ≡ m
    → Finished n (tx_rows rows t)
    → Finished m (tx_rows (row ∷ rows) s)
unfolding tx_rows
moved rows s row {t = t} {m = m} h e f =
    subst (λ t. Finished m (tx_rows rows t)) (sym h) (subst (λ k. Finished k (tx_rows rows t)) e f)

tx_rows-Finished :
    (rows : List LogRow) (k : ℕ) (s : TxLog)
    → Finished k s
    → Finished (k + changes s.uut_ch rows) (tx_rows rows s)
unfolding tx_rows
tx_rows-Finished [] k s f = subst (λ n. Finished n s) (omega arith) f
tx_rows-Finished (row ∷ rows) k s f = elim (Bool-cases (text_eq s.uut_ch row.uut_ch)) [
  | inl e ↦
      let same = ap (λ c. changes c rows) (tx_next-uut_ch row s ∙ text_eq→eq _ _ e) in
      moved rows s row (if_true _ _ e) (omega (arith, same, if_true {A = ℕ} 0 1 e))
        (tx_rows-Finished rows k (tx_next row s) (tx_next-Finished k row s f))
  | inr e ↦
      let same = ap (λ c. changes c rows) (tx_first-uut_ch row s) in
      moved rows s row (if_false _ _ e) (omega (arith, same, if_false {A = ℕ} 0 1 e))
        (tx_rows-Finished rows (suc k) (tx_first row s) (tx_first-Finished k row s f))
]

abbrev Split : ℕ → Axes × Axes → Type 0
Split k r = (n : ℕ) × (m : ℕ) × (n + m ≡ k) × Fitting n r.0 × Fitting m r.1

if-Split :
    (c : Bool) (k : ℕ) (r q : Axes × Axes) → Split k r → Split k q → Split k (if c then r else q)
if-Split true k r q f g = f
if-Split false k r q f g = g

tx_end-Split : (k : ℕ) (s : TxLog) → Finished k s → Split (suc k) (tx_end s)
tx_end-Split k s (n, m, e, f, g) =
    if-Split (is_a s.uut_ch) (suc k) _ _ (suc n, m, omega arith, flush-Fitting n s.axes_0 f, g)
      (n, suc m, omega arith, f, flush-Fitting m s.axes_1 g)

-- Whatever the log holds, every axis has as many gains as powers and noise floors, and the two
-- channels have together one axis for each change of the channel and two more.
process_tx_log-Fitting :
    (rows : List LogRow)
    → (n : ℕ) × (m : ℕ) × (n + m ≡ 2 + changes [] rows)
      × Fitting n (process_tx_log rows).0
      × Fitting m (process_tx_log rows).1
unfolding process_tx_log
process_tx_log-Fitting rows =
    let first : Finished 1 tx_start =
      (1, 0, refl, flush-Fitting 0 no_axes no_axes-Fitting, no_axes-Fitting) in
    let (n, m, e, f, g) =
      tx_end-Split (1 + changes [] rows) (tx_rows rows tx_start)
        (tx_rows-Finished rows 1 tx_start first) in
    (n, m, omega arith, f, g)
