-- ===== src/Csi/NodesTests.antt =====
-- PYTHON/IrisUtils/channel_analysis.py: a run of the search for bad nodes.
use houdini_lab.Csi.References.{Described, find_bad_nodes-ends}
use houdini_lab.Csi.Nodes.{find_bad_nodes, choose, node_good, count_good, bad_nodes}
use houdini_lab.Common.{ℕ, Bool, List, ◌==◌, ◌≡◌, ◌||◌, some, ◌∷◌, arith, [], refl}

-- Of four nodes, the third one strays from all; only the fourth agrees with the second.
abbrev strays : ℕ → ℕ → Bool
strays ref n = (ref == 2) || ((n == 2) || (n == 0))

runs : find_bad_nodes strays 4 4 ≡ some (1 ∷ 3 ∷ [])
unfolding find_bad_nodes choose node_good count_good bad_nodes
runs = refl

find_bad_nodes-ends_example :
    (bad : List ℕ) × (find_bad_nodes strays 4 4 ≡ some bad) × Described strays 4 bad
find_bad_nodes-ends_example = find_bad_nodes-ends strays 4 (omega arith)
