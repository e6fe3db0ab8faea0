-- ===== src/Health/Rows.antt =====
-- The verdicts in the log of test_receiver, PYTHON/IrisUtils/iris_health_monitor.py.
use mathlib.Core.Path.{subst}
use houdini_lab.Common.{
  ℕ, ◌+◌, ◌≡◌, refl, sym, ◌∙◌, Bool, true, false, ◌&&◌, ◌||◌, not, List, [], ◌∷◌, ◌++◌, arith,
  if◌then◌else◌,
}
use houdini_lab.Common.Int.{ℤ}
use houdini_lab.Common.Text.{Text}
use houdini_lab.Health.Receiver.{
  Reading, passed, failed, unmarked, Channel, a, b, ab, Row, Sweep, add_row, reached_1, reached_2,
  rx_sweep,
}
use houdini_lab.Health.Sweep.{turned, noted, rx_sweep-cons}

abbrev same_channel : Channel → Channel → Bool
same_channel a a = true
same_channel b b = true
same_channel ab ab = true
same_channel _ _ = false

-- 1 for a row that says passed or failed of the channel.
abbrev pub verdict : Channel → Row → ℕ
verdict ch row = elim row.pf [
  | passed ↦ if same_channel ch row.uut_ch then 1 else 0
  | failed ↦ if same_channel ch row.uut_ch then 1 else 0
  | unmarked ↦ 0
]

-- How many verdicts on the channel the rows hold.
abbrev pub verdicts : Channel → List Row → ℕ
verdicts ch [] = 0
verdicts ch (row ∷ rows) = verdict ch row + verdicts ch rows

pub verdicts-append :
    (ch : Channel) (rows rows' : List Row)
    → verdicts ch (rows ++ rows') ≡ verdicts ch rows + verdicts ch rows'
verdicts-append ch [] rows' = omega arith
verdicts-append ch (row ∷ rows) rows' = omega (arith, verdicts-append ch rows rows')

abbrev pub bit : Bool → ℕ
bit x = if x then 1 else 0

other_row :
    (ch : Channel) (c : Bool) (row : Row) (rows : List Row)
    → verdict ch row ≡ 0
    → verdicts ch (if c then add_row row rows else rows) ≡ verdicts ch rows
other_row ch true row rows h = omega (arith, verdicts-append ch rows (row ∷ []))
other_row ch false row rows h = refl

own_row :
    (ch : Channel) (r x : Bool) (row : Row) (rows : List Row)
    → verdict ch row ≡ 1
    → verdicts ch rows ≡ bit x
    → verdicts ch (if r && not x then add_row row rows else rows) ≡ bit (x || r)
own_row ch true true row rows h k = k
own_row ch true false row rows h k = omega (arith, verdicts-append ch rows (row ∷ []))
own_row ch false true row rows h k = k
own_row ch false false row rows h k = k

module _ (limit : ℤ) (detailed : Bool) (serial : Text) (lo hi : ℕ) where
  -- Each channel that was logged has one verdict.
  abbrev pub Tallied : Sweep → Type 0
  Tallied s = (verdicts a s.rows ≡ bit s.ch_1_logged) × (verdicts b s.rows ≡ bit s.ch_2_logged)

  turned-Tallied :
      (gain : ℕ) (r : Reading) (s : Sweep)
      → Tallied s
      → Tallied (turned limit detailed serial lo hi gain r s)
  turned-Tallied gain r s h = (
    other_row a _ _ _ refl ∙ own_row a (reached_1 limit detailed r) s.ch_1_logged _ _ refl h.0,
    own_row b (reached_2 limit detailed r) s.ch_2_logged _ _ refl (other_row b _ _ _ refl ∙ h.1),
  )

  noted-Tallied :
      (gain : ℕ) (r : Reading) (s : Sweep)
      → Tallied s
      → Tallied (noted limit detailed serial lo hi gain r s)
  noted-Tallied gain r s h =
      let (one, two) = turned-Tallied gain r s h in
      (other_row a _ _ _ refl ∙ one, other_row b _ _ _ refl ∙ two)

  if-Tallied : (x : Bool) (t u : Sweep) → Tallied t → Tallied u → Tallied (if x then t else u)
  if-Tallied true t u h k = h
  if-Tallied false t u h k = k

  pub rx_sweep-Tallied :
      (measure : ℕ → Reading) (gains : List ℕ) (s : Sweep)
      → Tallied s
      → Tallied (rx_sweep limit detailed serial lo hi measure gains s)
  unfolding rx_sweep
  rx_sweep-Tallied measure [] s h = h
  rx_sweep-Tallied measure (gain ∷ gains) s h =
      subst Tallied (sym (rx_sweep-cons limit detailed serial lo hi measure gain gains s)) (
        if-Tallied _ (turned limit detailed serial lo hi gain (measure gain) s) _
          (turned-Tallied gain (measure gain) s h)
          (rx_sweep-Tallied measure gains (noted limit detailed serial lo hi gain (measure gain) s)
            (noted-Tallied gain (measure gain) s h)))
