-- ===== src/Dashboard/Scan/Lines.antt =====
-- The attempts of the scan and its lines: WEBGUI/iris_get_status.py, get_iris_sns_on_network.
use mathlib.Core.List.{append-nil, append_assoc}
use native.Mathlib.Decide.{ℕ_discrete}
use houdini_lab.Common.{
  ℕ, zero, suc, ◌+◌, ◌-◌, ◌<◌, ◌≤◌, ◌≡◌, refl, ap, ◌⊎◌, true, false, List, [], ◌∷◌, ◌++◌, map, inl,
  inr, arith, ◌==◌, Bool-cases, ◌∙◌,
}
use houdini_lab.Common.Text.{Text}
use houdini_lab.Dashboard.Scan.{
  is_empty, attempts, is_line_break, lines_from, split_lines, filter_lines, is_iris, serial,
  get_iris_sns_on_network,
}

-- What the attempts from number `i` on, of which `k + 1` are allowed, have done.
abbrev pub Attempted : (ℕ → Text) → ℕ → ℕ → Text × ℕ → Type 0
Attempted read k i (out, n) =
    (i < n)
    × (n ≤ i + suc k)
    × (out ≡ read (n - 1))
    × ((is_empty out ≡ false) ⊎ (n ≡ i + suc k))
    × ((j : ℕ) → i ≤ j → suc j < n → is_empty (read j) ≡ true)

attempts-stop :
    (read : ℕ → Text) (k i : ℕ) (t : Text)
    → is_empty (read i) ≡ false
    → attempts read (suc k) i t ≡ (read i, suc i)
unfolding attempts
attempts-stop read k i t h = rw h

attempts-again :
    (read : ℕ → Text) (k i : ℕ) (t : Text)
    → is_empty (read i) ≡ true
    → attempts read (suc k) i t ≡ attempts read k (suc i) (read i)
unfolding attempts
attempts-again read k i t h = rw h

sub_suc_one : (i : ℕ) → suc i - 1 ≡ i
sub_suc_one i = omega arith

stopped :
    (read : ℕ → Text) (k i : ℕ) → is_empty (read i) ≡ false → Attempted read k i (read i, suc i)
stopped read k i h =
    (omega arith, omega arith, rw (sub_suc_one i), inl h, λ j p q. absurd (omega arith))

gave_up : (read : ℕ → Text) (i : ℕ) → Attempted read 0 i (read i, suc i)
gave_up read i =
    (omega arith, omega arith, rw (sub_suc_one i), inr (omega arith), λ j p q. absurd (omega arith))

widen :
    (read : ℕ → Text) (k i : ℕ) (r : Text × ℕ)
    → is_empty (read i) ≡ true
    → Attempted read k (suc i) r
    → Attempted read (suc k) i r
widen read k i (out, n) h (lo, hi, last, why, before) = (
  omega arith,
  omega arith,
  last,
  elim why [ inl e ↦ inl e | inr e ↦ inr (omega arith) ],
  λ j p q. elim (ℕ_discrete i j) [ yes e ↦ rw (← e) h | no ne ↦ before j (omega arith) q ],
)

-- The scan runs the command once or more and at most `k + 1` times; it keeps the last output,
-- which is not empty unless every attempt was made, and every earlier output was empty.
attempts-Attempted :
    (read : ℕ → Text) (k i : ℕ) (t : Text) → Attempted read k i (attempts read (suc k) i t)
attempts-Attempted read zero i t = elim (Bool-cases (is_empty (read i))) [
  | inl e ↦ rw (attempts-again read 0 i t e) (unfold attempts in gave_up read i)
  | inr e ↦ rw (attempts-stop read 0 i t e) (stopped read 0 i e)
]
attempts-Attempted read (suc k) i t = elim (Bool-cases (is_empty (read i))) [
  | inl e ↦
      rw (attempts-again read (suc k) i t e)
        (widen read k i _ e (attempts-Attempted read k (suc i) (read i)))
  | inr e ↦ rw (attempts-stop read (suc k) i t e) (stopped read (suc k) i e)
]

-- No character of the line is a line boundary.
abbrev pub NoBreak : Text → Type 0
NoBreak [] = Unit {0}
NoBreak (c ∷ l) = (is_line_break c ≡ false) × NoBreak l

abbrev pub AllNoBreak : List Text → Type 0
AllNoBreak [] = Unit {0}
AllNoBreak (l ∷ ls) = NoBreak l × AllNoBreak ls

-- The lines, each with its line feed.
abbrev pub join_lines : List Text → Text
join_lines [] = []
join_lines (l ∷ ls) = l ++ 10 ∷ join_lines ls

not_break-not_cr : (c : ℕ) → is_line_break c ≡ false → (c == 13) ≡ false
not_break-not_cr c h = ground arith

lines_from-line :
    (line l s : Text)
    → NoBreak l
    → lines_from false line (l ++ 10 ∷ s) ≡ (line ++ l) ∷ lines_from false [] s
unfolding lines_from
lines_from-line line [] s h = rw append-nil
lines_from-line line (c ∷ l) s h =
    rw (h.0, not_break-not_cr c h.0)
      (lines_from-line (line ++ c ∷ []) l s h.1
        ∙ ap (λ t. t ∷ lines_from false [] s) (append_assoc line (c ∷ []) l))

-- Splitting undoes joining.
pub split_lines-join_lines : (ls : List Text) → AllNoBreak ls → split_lines (join_lines ls) ≡ ls
unfolding split_lines
split_lines-join_lines [] h = refl
split_lines-join_lines (l ∷ ls) h =
    lines_from-line [] l (join_lines ls) h.0 ∙ ap (λ t. l ∷ t) (split_lines-join_lines ls h.1)

line-not-empty : (l s : Text) → is_empty (l ++ 10 ∷ s) ≡ false
line-not-empty [] s = refl
line-not-empty (c ∷ l) s = refl

scan_stages :
    (read : ℕ → Text)
    → get_iris_sns_on_network read
      ≡ map serial (filter_lines is_iris (split_lines (attempts read 3 0 []).0))
unfolding get_iris_sns_on_network
scan_stages read = refl

-- A first output that lists devices, one to a line, is scanned in one attempt: the result has the
-- serial of each line that names an IRIS, in the order of the lines.
get_iris_sns_on_network-lines :
    (read : ℕ → Text) (l : Text) (ls : List Text)
    → AllNoBreak (l ∷ ls)
    → read 0 ≡ join_lines (l ∷ ls)
    → get_iris_sns_on_network read ≡ map serial (filter_lines is_iris (l ∷ ls))
get_iris_sns_on_network-lines read l ls h e = rw (
  scan_stages read,
  attempts-stop read 2 0 [] (rw e (line-not-empty l (join_lines ls))),
  e,
  split_lines-join_lines (l ∷ ls) h,
)
