-- ===== src/Dashboard/Scan.antt =====
-- WEBGUI/iris_get_status.py, get_iris_sns_on_network: the serial numbers of the Irises that
-- `SoapySDRUtil --find --sparse` lists. The outputs of the command are the argument `read`.
pub mod Lines
pub mod Serial
mod Tests
use houdini_lab.Common.{
  ℕ, zero, suc, ◌+◌, ◌-◌, Bool, true, false, not, ◌&&◌, ◌||◌, Option, none, some, List, [], ◌∷◌,
  ◌++◌, map, ◌==◌, if◌then◌else◌, length, drop,
}
use houdini_lab.Common.Text.{Text, codes, find, contains}

abbrev pub is_empty {ℓ} : {A : Type ℓ} → List A → Bool
is_empty [] = true
is_empty (_ ∷ _) = false

-- The loop over the attempts: the last output read, and the number of commands run. It stops at
-- the first output that is not empty.
unfoldable pub attempts : (ℕ → Text) → ℕ → ℕ → Text → Text × ℕ
attempts read zero i irises = (irises, i)
attempts read (suc k) i irises =
    let rest = attempts read k (suc i) (read i) in
    if is_empty (read i) then rest else (read i, suc i)

-- Python's line boundaries.
abbrev pub is_line_break : ℕ → Bool
is_line_break c =
    c == 10
    || c == 11
    || c == 12
    || c == 13
    || c == 28
    || c == 29
    || c == 30
    || c == 133
    || c == 8232
    || c == 8233

-- `str.splitlines`, at the line read so far; `cr` is set just after a carriage return, whose
-- line feed belongs to it.
unfoldable pub lines_from : Bool → Text → Text → List Text
lines_from cr line [] = if is_empty line then [] else line ∷ []
lines_from cr line (c ∷ s) =
    let joined = cr && c == 10 in
    let rest =
      lines_from (not joined && c == 13)
        (if joined then line else if is_line_break c then [] else line ++ c ∷ []) s in
    if not joined && is_line_break c then line ∷ rest else rest

unfoldable pub split_lines : Text → List Text
unfolding lines_from
split_lines = lines_from false []

unfoldable pub filter_lines : (Text → Bool) → List Text → List Text
filter_lines keep [] = []
filter_lines keep (l ∷ ls) = let rest = filter_lines keep ls in if keep l then l ∷ rest else rest

-- `iris.find("IRIS") != -1`
unfoldable pub is_iris : Text → Bool
unfolding contains
is_iris line = contains line (codes "IRIS")

-- `iris[iris.find("RF"):]`: where there is no "RF", `find` is -1 and the slice starts at the
-- last character.
unfoldable pub serial : Text → Text
unfolding find
serial line = elim (find line (codes "RF")) [
  | none ↦ drop (length line - 1) line
  | some i ↦ drop i line
]

unfoldable pub get_iris_sns_on_network : (ℕ → Text) → List Text
unfolding attempts split_lines filter_lines is_iris serial
get_iris_sns_on_network read =
    map serial (filter_lines is_iris (split_lines (attempts read 3 0 []).0))
