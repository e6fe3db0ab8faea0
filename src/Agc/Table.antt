-- ===== src/Agc/Table.antt =====
-- The gain table holds every gain that the control asks for:
-- PYTHON/IrisUtils/agc_fsm_iris.py, setSatGain and fineTuning.
use houdini_lab.Common.{
  ℕ, zero, suc, ◌≤◌, ◌<◌, ◌≡◌, refl, Bool, true, false, ◌&&◌, Option, none, some, [], ◌∷◌, ◌++◌,
  arith,
}
use houdini_lab.Common.Int.{ℤ, pos, negsuc, ◌-ℤ◌, ◌≤ℤ◌, leb_ℤ, pos_part}
use houdini_lab.Agc.State.{Gains, Agc, gain_table, rows_of, only_row}
use houdini_lab.Agc.State
use houdini_lab.Agc.Gains.{ok, adjusted_gain, apply_gain}

-- The ranges of the amplifiers.
abbrev pub InRange : Gains → Type 0
InRange g =
    (pos 0 ≤ℤ g.lna)
    × (g.lna ≤ℤ pos 30)
    × (pos 0 ≤ℤ g.tia)
    × (g.tia ≤ℤ pos 12)
    × (negsuc 11 ≤ℤ g.pga)
    × (g.pga ≤ℤ pos 19)

in_range : Gains → Bool
in_range g =
    leb_ℤ (pos 0) g.lna
    && leb_ℤ g.lna (pos 30)
    && leb_ℤ (pos 0) g.tia
    && leb_ℤ g.tia (pos 12)
    && leb_ℤ (negsuc 11) g.pga
    && leb_ℤ g.pga (pos 19)

in_range-InRange : (g : Gains) → in_range g ≡ true → InRange g
unfolding in_range
in_range-InRange g h = ground arith

holds_row : Option Gains → Bool
holds_row none = false
holds_row (some g) = in_range g

rows_below : ℕ → Bool
rows_below zero = true
rows_below (suc n) = holds_row (only_row (rows_of n gain_table)) && rows_below n

table_checked : rows_below 65 ≡ true
unfolding rows_below holds_row in_range rows_of gain_table
table_checked = refl

rows_below-holds_row :
    (n g : ℕ) → rows_below n ≡ true → g < n → holds_row (only_row (rows_of g gain_table)) ≡ true
unfolding rows_below
rows_below-holds_row zero g h lt = absurd (omega arith)
rows_below-holds_row (suc n) g h lt = ground (arith, rows_below-holds_row n g)

holds_row-row : (o : Option Gains) → holds_row o ≡ true → (g : Gains) × (o ≡ some g) × InRange g
unfolding holds_row
holds_row-row none h = cc
holds_row-row (some g) h = (g, refl, in_range-InRange g h)

-- Every gain from 0 to 64 has exactly one row, whose three gains the amplifiers accept.
table-row : (n : ℕ) → n ≤ 64 → (g : Gains) × (only_row (rows_of n gain_table) ≡ some g) × InRange g
table-row n h = holds_row-row _ (rows_below-holds_row 65 n table_checked (omega arith))

-- Whatever the adjustment, the gain that is looked up lies in the table.
pub adjusted_gain-in_table :
    (cumulative : ℤ) → (pos 0 ≤ℤ adjusted_gain cumulative) × (adjusted_gain cumulative ≤ℤ pos 64)
unfolding adjusted_gain ◌-ℤ◌
adjusted_gain-in_table cumulative = ground arith

pos_part-le : (z : ℤ) {n : ℕ} → z ≤ℤ pos n → pos_part z ≤ n
pos_part-le (pos m) h = omega arith
pos_part-le (negsuc m) h = omega arith

-- The state after the amplifiers were set to `g`.
abbrev pub gained : Agc → Gains → Agc
gained s g = record s {
  gain = g;
  gain_calls =
      s.gain_calls
      ++ ((State.Stage.lna, g.lna) ∷ (State.Stage.tia, g.tia) ∷ (State.Stage.pga, g.pga) ∷ []);
}

-- The gain that a total adjustment leads to.
pub row_for :
    (cumulative : ℤ)
    → (g : Gains) × (only_row (rows_of (pos_part (adjusted_gain cumulative)) gain_table) ≡ some g)
      × InRange g
row_for cumulative = table-row _ (pos_part-le _ (adjusted_gain-in_table cumulative).1)

-- The lookup never fails: the three amplifiers are set, each within its range.
pub apply_gain-gained : (s : Agc) → (g : Gains) × (apply_gain s ≡ ok tt (gained s g)) × InRange g
unfolding apply_gain
apply_gain-gained s = let (g, e, h) = row_for s.cumulative_gain_adjust in (g, rw (e, apply_gain), h)
