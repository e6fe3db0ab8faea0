-- ===== src/Recorder/Frames.antt =====
-- PYTHON/IrisUtils/data_recorder.py: the frames of an HDF5 file, and replay of PYTHON/DEMOS/SISO_RX.py,
-- which averages their power. A frame and the power of each of its two chains are of the caller's
-- types; a row that was not written holds zeros. h5py appends rows that `resize` adds.
use houdini_lab.Common.{ℕ, List, replicate, length, take, ◌+◌, ◌∷◌, ◌++◌, set, [], ◌-◌}

pub record Rssi : Type 0 where
  pub chain_a : ℕ
  pub chain_b : ℕ

-- The columns of Time other than the clock of the computer.
pub record H5file (A : Type 0) : Type 0 where
  pub samples : List A
  pub time_ref : List ℕ
  pub num_frames : ℕ

module _ {A : Type 0} (zeros : A) where
  -- init_h5file: the datasets begin with num_frame = 1 rows, the attribute with 0.
  unfoldable pub init_h5file : H5file A
  init_h5file = record { samples = replicate 1 zeros; time_ref = replicate 1 0; num_frames = 0 }

  unfoldable pub resize : {B : Type 0} → B → ℕ → List B → List B
  resize null n xs = take n xs ++ replicate (n - length xs) null

  unfoldable pub save_frame : H5file A → A → ℕ → H5file A
  save_frame h5file frame timestamp =
      let cur_len = length h5file.samples in
      let frame_number = cur_len + 1 in
      record {
        samples = set (resize zeros frame_number h5file.samples) (frame_number - 1) frame;
        time_ref = set (resize 0 frame_number h5file.time_ref) (frame_number - 1) timestamp;
        num_frames = frame_number;
      }

  -- A recording: the frames with their times, in order.
  unfoldable pub recorded : H5file A → List (A × ℕ) → H5file A
  recorded h5file [] = h5file
  recorded h5file ((frame, timestamp) ∷ rest) = recorded (save_frame h5file frame timestamp) rest

module _ {A : Type 0} (power : A → Rssi) where
  -- The sums of the loop of replay.
  unfoldable pub total : List A → Rssi
  total [] = record { chain_a = 0; chain_b = 0 }
  total (x ∷ xs) = record {
    chain_a = (power x).chain_a + (total xs).chain_a;
    chain_b = (power x).chain_b + (total xs).chain_b;
  }

  -- The sums, and the number of frames that they are divided by.
  unfoldable pub replay : H5file A → Rssi × ℕ
  replay h5file = (total h5file.samples, length h5file.samples)
