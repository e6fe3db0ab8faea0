-- ===== src/Csi/Pilots.antt =====
-- PYTHON/IrisUtils/hdf5_lib.py, samps2csi and samps2csi_large, without the legacy format, the signal to
-- noise ratio and the reports. A recording is a list of frames, a frame a list of users, a user a list
-- of antennas with the samples of the slot, whose two halves numpy has put together.
use houdini_lab.Common.Options.{◌>>=◌}
use houdini_lab.Common.{
  Bool, ℕ, List, ◌+◌, ◌-◌, ◌∷◌, if◌then◌else◌, [], map, ◌==◌, Option, ◌/◌, ◌*◌, suc, some, take,
  zero, none, drop, ◌++◌, true, length, ltb,
}
use houdini_lab.Sequence.Zadoff.{fft_length}

-- numpy on the values of a symbol; `fftshift` swaps the halves of a list, and `single` is what a value
-- becomes in an array of complex64.
pub record Spectrum : Type 1 where
  pub Value : Type 0
  pub is_null : Value → Bool
  pub divided : Value → Value → Value
  pub fft : List Value → List Value
  pub fftshift : List Value → List Value
  pub single : Value → Value

pub record SlotArgs : Type 0 where
  pub samps_per_user : ℕ
  pub fft_size : ℕ
  pub offset : ℕ
  pub bound : ℕ
  pub cp : ℕ

abbrev pub ofdm_len : SlotArgs → ℕ
ofdm_len s = s.fft_size + s.cp

-- `(samps_per_user - bound) // ofdm_len`, where the bound is within the slot.
abbrev pub pilot_rep : SlotArgs → ℕ
pilot_rep s = (s.samps_per_user - s.bound) / ofdm_len s

-- `[offset + cp + i * ofdm_len : offset + (i + 1) * ofdm_len]`
unfoldable pub window {ℓ} : {A : Type ℓ} → SlotArgs → ℕ → List A → List A
window s i samples =
    let from = s.offset + s.cp + i * ofdm_len s in
    take (s.offset + (i + 1) * ofdm_len s - from) (drop from samples)

module _ (np : Spectrum) where
  unfoldable pub nonzero_sc_size : List np.Value → ℕ
  nonzero_sc_size [] = 0
  nonzero_sc_size (p ∷ ps) =
      let rest = nonzero_sc_size ps in if np.is_null p then rest else suc rest

  -- The subcarriers at which the pilot is not null, divided by it.
  unfoldable pub estimates : List np.Value → List np.Value → List np.Value
  estimates [] pilot_f = []
  estimates (x ∷ xs) [] = []
  estimates (x ∷ xs) (p ∷ ps) =
      let rest = estimates xs ps in if np.is_null p then rest else np.divided x p ∷ rest

module _ (np : Spectrum) (s : SlotArgs) (pilot_f : List np.Value) where
  unfoldable pub antenna_csi : Bool → ℕ → List np.Value → List np.Value
  antenna_csi fft_shifted i samples =
      let f = np.fft (window s i samples) in
      estimates np (if fft_shifted then np.fftshift f else f) pilot_f

  -- The repetitions from i on, each with all antennas.
  unfoldable pub user_csi : Bool → ℕ → ℕ → List (List np.Value) → List (List (List np.Value))
  user_csi fft_shifted zero i antennas = []
  user_csi fft_shifted (suc n) i antennas =
      map (antenna_csi fft_shifted i) antennas ∷ user_csi fft_shifted n (suc i) antennas

  abbrev pub Frame : Type 0
  Frame = List (List (List np.Value))

  abbrev pub FrameCsi : Type 0
  FrameCsi = List (List (List (List np.Value)))

  abbrev pub frame_csi : Bool → Frame → FrameCsi
  frame_csi fft_shifted = map (user_csi fft_shifted (pilot_rep s) 0)

  abbrev pub is_expected : Bool
  is_expected = fft_length (nonzero_sc_size np pilot_f) == s.fft_size

  -- A pilot of another size than the FFT gives None.
  unfoldable pub samps2csi : Bool → List Frame → Option (List FrameCsi)
  samps2csi fft_shifted samps =
      if is_expected then some (map (frame_csi fft_shifted) samps) else none

  -- What an array of complex64 keeps of a frame.
  abbrev pub single_csi : FrameCsi → FrameCsi
  single_csi = map (map (map (map np.single)))

  -- The chunks from the i-th one on, written one after the other into an array of complex64.
  unfoldable pub chunks : ℕ → Bool → ℕ → ℕ → List Frame → Option (List FrameCsi)
  chunks chunk_size fft_shifted zero i samps =
      if ltb (i * chunk_size) (length samps)
      then (do
        part ← samps2csi fft_shifted (drop (i * chunk_size) samps)
        some (map single_csi part))
      else some []
  chunks chunk_size fft_shifted (suc n) i samps = do
    part ← samps2csi fft_shifted (take chunk_size (drop (i * chunk_size) samps))
    rest ← chunks chunk_size fft_shifted n (suc i) samps
    some (map single_csi part ++ rest)

  -- The first chunk is converted without the argument fft_shifted_dataset, whose default is True. The
  -- outer none is an exception: a division by 0, or an attribute of None.
  unfoldable pub samps2csi_large : ℕ → Bool → List Frame → Option (Option (List FrameCsi))
  samps2csi_large zero fft_shifted [] = some (samps2csi fft_shifted [])
  samps2csi_large zero fft_shifted (x ∷ xs) = none
  samps2csi_large (suc c) fft_shifted samps =
      let large = do
        csi0 ← samps2csi true (take (suc c) samps)
        rest ← chunks (suc c) fft_shifted (length samps / suc c - 1) 1 samps
        some (some (map single_csi csi0 ++ rest))
      in if ltb (suc c) (length samps) then large else some (samps2csi fft_shifted samps)
