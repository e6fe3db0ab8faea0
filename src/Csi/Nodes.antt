-- ===== src/Csi/Nodes.antt =====
-- PYTHON/IrisUtils/channel_analysis.py, find_bad_nodes: the search for a node that the others can be
-- compared with. Whether the correlation of a node with a reference strays too far (numpy) is
-- `deviates`.
use houdini_lab.Common.Options.{◌>>=◌}
use houdini_lab.Common.{
  ℕ, Bool, List, [], ◌∷◌, Option, suc, if◌then◌else◌, none, not, ltb, ◌==◌, ◌&&◌, some, false,
  replicate, true, zero, ◌/◌,
}

-- The flags of n nodes from the i-th on, after a pass with one reference.
unfoldable pub node_good : (ℕ → ℕ → Bool) → ℕ → ℕ → ℕ → List Bool
node_good deviates ref zero i = []
node_good deviates ref (suc n) i =
    (if not (i == ref) && deviates ref i then false else true) ∷ node_good deviates ref n (suc i)

-- `np.sum` of flags
unfoldable pub count_good : List Bool → ℕ
count_good [] = 0
count_good (x ∷ xs) = let rest = count_good xs in if x then suc rest else rest

-- The loop's passes from a reference on, or none where the fuel runs out.
unfoldable pub choose : (ℕ → ℕ → Bool) → ℕ → ℕ → ℕ → Option (List Bool)
choose deviates num_nodes zero ref = none
choose deviates num_nodes (suc fuel) ref =
    let rest = choose deviates num_nodes fuel (suc ref) in
    let found = node_good deviates ref num_nodes 0 in
    if ltb 1 (count_good found)
    then some found
    else if suc ref == num_nodes
    then some (replicate num_nodes false)
    else rest

-- The numbers, from 1 on, of the nodes that are not good.
unfoldable pub bad_nodes : ℕ → List Bool → List ℕ
bad_nodes i [] = []
bad_nodes i (x ∷ xs) = let rest = bad_nodes (suc i) xs in if x then rest else suc i ∷ rest

unfoldable pub find_bad_nodes : (ℕ → ℕ → Bool) → ℕ → ℕ → Option (List ℕ)
find_bad_nodes deviates fuel num_nodes = do
  flags ←
      if num_nodes == 1 then some (true ∷ []) else choose deviates num_nodes fuel (num_nodes / 2)
  some (bad_nodes 0 flags)
