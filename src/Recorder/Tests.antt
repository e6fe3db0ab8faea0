-- ===== src/Recorder/Tests.antt =====
-- PYTHON/IrisUtils/data_recorder.py and file_rdwr.py: runs.
use houdini_lab.Common.Int.{ℤ, pos, negsuc}
use houdini_lab.Recorder.Replayed.{replay-recorded}
use houdini_lab.Recorder.Pickled.{
  read_from_file, write_to_file, read_from_file-write_to_file, skip, read_values, load,
}
use houdini_lab.Recorder.Frames.{Rssi, recorded, replay, init_h5file, save_frame, total, resize}
use houdini_lab.Common.{
  refl, ℕ, List, ◌+◌, ◌∷◌, ◌≤◌, [], ◌≡◌, some, arith, ◌<◌, none, map, Option, get_elem?,
}

-- A frame is its power, the same in both chains.
abbrev both_chains : ℕ → Rssi
both_chains n = record { chain_a = n; chain_b = n }

abbrev two_frames : List (ℕ × ℕ)
two_frames = (30, 1000) ∷ (50, 2000) ∷ []

replay-recorded_example :
    (recorded 0 (init_h5file 0) two_frames
      ≡ record { samples = 0 ∷ 30 ∷ 50 ∷ []; time_ref = 0 ∷ 1000 ∷ 2000 ∷ []; num_frames = 3 })
    × (replay both_chains (recorded 0 (init_h5file 0) two_frames)
        ≡ (total both_chains (30 ∷ 50 ∷ []), 3))
replay-recorded_example = replay-recorded 0 both_chains refl two_frames (omega arith)

abbrev array : List ℕ
array = 11 ∷ 12 ∷ 13 ∷ 14 ∷ []

-- Values of 32 bits, and -1 as a value that an array of uint32 does not take.
abbrev to_word : ℤ → Option ℕ
to_word (pos n) = some n
to_word (negsuc n) = none

read_from_file-write_to_file_example :
    (1 + 2 ≤ 4 → read_from_file to_word 2 1 (write_to_file (map pos array)) ≡ some (12 ∷ 13 ∷ []))
    × (4 < 1 + 2 → read_from_file to_word 2 1 (write_to_file (map pos array)) ≡ none)
    × ((i : ℕ) (a : ℤ)
        → i < 2
        → get_elem? (negsuc 0 ∷ []) i ≡ some a
        → to_word a ≡ none
        → read_from_file to_word 2 1 (write_to_file (pos 5 ∷ negsuc 0 ∷ [])) ≡ none)
read_from_file-write_to_file_example =
    read_from_file-write_to_file to_word pos (λ w. refl) 2 1 array (pos 5 ∷ negsuc 0 ∷ [])

read_from_file_lem : read_from_file to_word 2 0 (write_to_file (pos 5 ∷ negsuc 0 ∷ [])) ≡ none
unfolding read_from_file write_to_file skip read_values load
read_from_file_lem = refl

average_lem :
    replay both_chains (recorded 0 (init_h5file 0) two_frames)
    ≡ (record { chain_a = 80; chain_b = 80 }, 3)
unfolding replay recorded init_h5file save_frame resize total
average_lem = refl
