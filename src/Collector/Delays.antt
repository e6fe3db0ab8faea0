-- ===== src/Collector/Delays.antt =====
-- PYTHON/IrisUtils/csi_lib.py, sample_cal: the adjustment of the nodes' delays, where the offset of a
-- node is the index of its pilot, and 0 if that was not found.
use houdini_lab.Common.Options.{◌>>=◌}
use houdini_lab.Common.{
  List, ℕ, Bool, if◌then◌else◌, true, ◌-◌, ◌==◌, not, ◌∷◌, ◌+◌, ltb, Option, [], ◌&&◌, ◌||◌, suc,
  replicate, set, get_elem?, some, length, none,
}
use houdini_lab.Calibration.Votes.{Trigger, writes_of}

-- The writes to the nodes in their order, and the result.
pub record Round : Type 0 where
  pub writes : List (List Trigger)
  pub synced : Bool

abbrev pub ref_offset : ℕ → ℕ
ref_offset ref_ant = if ref_ant == 0 then 1 else 0

-- The branches of one node, with the offset of the reference.
unfoldable pub node_writes : ℕ → ℕ → List Trigger
node_writes reference offset = if offset == 0 then [] else writes_of reference offset

unfoldable pub node_synced : ℕ → ℕ → Bool
node_synced reference offset = not (offset == 0) && (offset == reference)

abbrev pub is_skipped : ℕ → ℕ → Bool
is_skipped ref_ant i = (i == ref_ant) || (i == ref_offset ref_ant)

-- The nodes from i on.
unfoldable pub forward : ℕ → ℕ → ℕ → List ℕ → Round
forward ref_ant reference i [] = record { writes = []; synced = true }
forward ref_ant reference i (x ∷ xs) =
    let rest = forward ref_ant reference (suc i) xs in
    let skipped = is_skipped ref_ant i in
    record {
      writes = (if skipped then [] else node_writes reference x) ∷ rest.writes;
      synced = (skipped || node_synced reference x) && rest.synced;
    }

abbrev pub distance : ℕ → ℕ → ℕ
distance a b = (a - b) + (b - a)

-- The writes to the reference antenna only; where there is no such node they raise.
unfoldable pub backward : ℕ → ℕ → ℕ → ℕ → Option Round
backward n_nodes ref_ant target offset =
    let none_written = replicate n_nodes [] in
    let ws = node_writes target offset in
    if ltb (distance target offset) 2
    then some (record { writes = none_written; synced = true })
    else if ltb ref_ant n_nodes || (offset == 0)
    then some (record { writes = set none_written ref_ant ws; synced = node_synced target offset })
    else none

-- As many offsets as nodes; without the node of the reference the index is out of range.
unfoldable pub sample_cal : List ℕ → ℕ → ℕ → Bool → Option Round
sample_cal offset ref_ant target_offset is_forward = do
  reference ← get_elem? offset (ref_offset ref_ant)
  if is_forward
      then some (forward ref_ant reference 0 offset)
      else backward (length offset) ref_ant target_offset reference
