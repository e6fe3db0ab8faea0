-- ===== src/Dashboard/Scan/Tests.antt =====
-- Runs of the scan on concrete outputs.
use houdini_lab.Common.{ℕ, zero, suc, ◌≡◌, refl, List, [], ◌∷◌, ◌++◌, arith}
use houdini_lab.Common.Text.{Text, codes}
use houdini_lab.Dashboard.Scan.{get_iris_sns_on_network, split_lines, attempts}
use houdini_lab.Dashboard.Scan.Lines.{AllNoBreak, join_lines}

abbrev listing : List Text
listing = codes "IRIS-030 RF3C000034" ∷ codes "HUB RF9" ∷ codes "IRIS?" ∷ []

abbrev outputs : ℕ → Text
outputs zero = join_lines listing
outputs (suc _) = []

abbrev silent_once : ℕ → Text
silent_once zero = []
silent_once (suc _) = codes "IRIS RF1"

scan_listing : get_iris_sns_on_network outputs ≡ codes "RF3C000034" ∷ codes "?" ∷ []
unfolding get_iris_sns_on_network
scan_listing = refl

scan_retries : attempts silent_once 3 0 [] ≡ (codes "IRIS RF1", 2)
unfolding attempts
scan_retries = refl

split_mixed :
    split_lines (codes "a" ++ 13 ∷ 10 ∷ codes "b" ++ 10 ∷ 10 ∷ []) ≡ codes "a" ∷ codes "b" ∷ [] ∷ []
unfolding split_lines
split_mixed = refl

listing-AllNoBreak : AllNoBreak listing
listing-AllNoBreak = ground arith
