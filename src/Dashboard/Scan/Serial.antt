-- ===== src/Dashboard/Scan/Serial.antt =====
-- What the scan keeps of a line: WEBGUI/iris_get_status.py, get_iris_sns_on_network.
use houdini_lab.Common.{
  ℕ, zero, suc, ◌-◌, ◌<◌, ◌≤◌, ◌≡◌, true, false, none, some, [], ◌∷◌, inl, inr, arith, length, drop,
  length-drop, Option-cases,
}
use houdini_lab.Common.Text.{Text, codes, find, contains, starts_with}
use houdini_lab.Dashboard.Scan.{serial}

-- `p` stands at `i`, and nowhere before it.
abbrev pub FirstAt : Text → Text → ℕ → Type 0
FirstAt p s zero = starts_with s p ≡ true
FirstAt p [] (suc i) = ⊥
FirstAt p (a ∷ s) (suc i) = (starts_with (a ∷ s) p ≡ false) × FirstAt p s i

find-FirstAt : (s p : Text) (i : ℕ) → find s p ≡ some i → FirstAt p s i
unfolding find
find-FirstAt [] p zero h = ground arith
find-FirstAt [] p (suc i) h = ground arith
find-FirstAt (a ∷ s) p zero h = ground arith
find-FirstAt (a ∷ s) p (suc i) h = ground (arith, find-FirstAt s p i)

FirstAt-here : (s p : Text) (i : ℕ) → FirstAt p s i → starts_with (drop i s) p ≡ true
FirstAt-here s p zero h = h
FirstAt-here [] p (suc i) h = absurd h
FirstAt-here (a ∷ s) p (suc i) h = FirstAt-here s p i h.1

FirstAt-before : (s p : Text) (i j : ℕ) → FirstAt p s i → j < i → starts_with (drop j s) p ≡ false
FirstAt-before s p zero j h lt = absurd (omega arith)
FirstAt-before [] p (suc i) j h lt = absurd h
FirstAt-before (a ∷ s) p (suc i) zero h lt = h.0
FirstAt-before (a ∷ s) p (suc i) (suc j) h lt = FirstAt-before s p i j h.1 (omega arith)

serial-found : (line : Text) {i : ℕ} → find line (codes "RF") ≡ some i → serial line ≡ drop i line
unfolding serial
serial-found line e = rw (e, serial)

serial-missing :
    (line : Text) → find line (codes "RF") ≡ none → serial line ≡ drop (length line - 1) line
unfolding serial
serial-missing line e = rw (e, serial)

-- Of a line that contains "RF" the scan keeps the rest from the first "RF" on.
serial-from_rf :
    (line : Text)
    → contains line (codes "RF") ≡ true
    → (i : ℕ) × (serial line ≡ drop i line)
      × (starts_with (serial line) (codes "RF") ≡ true)
      × ((j : ℕ) → j < i → starts_with (drop j line) (codes "RF") ≡ false)
unfolding contains
serial-from_rf line h = elim (Option-cases (find line (codes "RF"))) [
  | inl missing ↦ absurd (ground arith)
  | inr (i, e) ↦
      let first = find-FirstAt line (codes "RF") i e in
      let kept = serial-found line e in
      (
        i,
        kept,
        rw kept (FirstAt-here line (codes "RF") i first),
        λ j lt. FirstAt-before line (codes "RF") i j first lt,
      )
]

-- Of a line that does not contain "RF" the scan keeps at most one character, the last: no serial.
serial-without_rf :
    (line : Text)
    → contains line (codes "RF") ≡ false
    → (serial line ≡ drop (length line - 1) line) × (length (serial line) ≤ 1)
unfolding contains
serial-without_rf line h = elim (Option-cases (find line (codes "RF"))) [
  | inl missing ↦
      let kept = serial-missing line missing in
      (kept, rw kept (omega (arith, length-drop (length line - 1) line)))
  | inr (i, e) ↦ absurd (ground arith)
]
