-- ===== src/Dashboard/Decimal.antt =====
-- A `PyFloat` whose floats are decimal texts: an instance of the interface, for the tests.
use houdini_lab.Common.{
  ℕ, ◌+◌, ◌-◌, ◌*◌, Bool, true, ◌&&◌, ◌||◌, none, some, [], ◌∷◌, arith, ◌==◌, leb, if◌then◌else◌,
  Bool-cases, inl, inr,
}
use houdini_lab.Common.Int.{ℤ, pos, ltb_ℤ, leb_ℤ, sub_ℕ}
use houdini_lab.Common.Text.{Text, codes}
use houdini_lab.Dashboard.Sensors.{PyFloat}
use houdini_lab.Dashboard.Checks.Alarm.{ReadsBack}

abbrev is_number : Text → Bool
is_number [] = true
is_number (c ∷ s) = (leb b'0' c && leb c b'9' || c == b'-' || c == b'.') && is_number s

abbrev hundredths : Text → ℕ
hundredths [] = 0
hundredths (a ∷ []) = (a - b'0') * 10
hundredths (a ∷ b ∷ _) = (a - b'0') * 10 + (b - b'0')

abbrev magnitude : ℕ → Text → ℕ
magnitude acc [] = acc * 100
magnitude acc (c ∷ s) =
    let rest = magnitude (acc * 10 + (c - b'0')) s in
    if c == b'.' then acc * 100 + hundredths s else rest

-- The number, in hundredths.
abbrev value : Text → ℤ
value [] = pos 0
value (c ∷ s) = if c == b'-' then sub_ℕ 0 (magnitude 0 s) else pos (magnitude 0 (c ∷ s))

abbrev pub decimal : PyFloat
decimal = record {
  Float = Text;
  float = λ t. if is_number t then some t else none;
  fixed2 = λ t. if is_number t then t else codes "0.00";
  gt = λ a b. ltb_ℤ (value b) (value a);
  le = λ a b. leb_ℤ (value a) (value b);
}

pub decimal-ReadsBack : ReadsBack decimal
decimal-ReadsBack x = elim (Bool-cases (is_number x)) [
  | inl h ↦ (x, ground arith)
  | inr h ↦ (codes "0.00", ground arith)
]
