-- ===== src/Csi/Windows.antt =====
-- PYTHON/IrisUtils/hdf5_lib.py, samps2csi: the windows of the repetitions lie in the slot.
use houdini_lab.Common.{
  ℕ, ◌<◌, List, ◌/◌, length, ◌+◌, ◌≡◌, ◌*◌, ◌≤◌, arith, ◌-◌, length-take, drop, length-drop, ◌∙◌,
}
use houdini_lab.Csi.Pilots.{SlotArgs, window, pilot_rep, ofdm_len}
use native.Mathlib.Nat.{div-add-mod}

-- A repetition that is counted ends within the samples of the slot.
rep-below : (n m i : ℕ) → i < n / m → (i + 1) * m ≤ n
rep-below n m i h = grind (arith, div-add-mod n m)

-- Where the offset is within the bound and the bound within the slot, each of the counted windows is as
-- long as the FFT.
pub length-window {ℓ} :
    {A : Type ℓ} (s : SlotArgs) (i : ℕ) (samples : List A)
    → length samples ≡ s.samps_per_user
    → s.offset ≤ s.bound
    → s.bound ≤ s.samps_per_user
    → i < pilot_rep s
    → length (window s i samples) ≡ s.fft_size
unfolding window
length-window s i samples size low high below =
    let last = rep-below (s.samps_per_user - s.bound) (ofdm_len s) i below in
    let next : (i + 1) * ofdm_len s ≡ i * ofdm_len s + ofdm_len s = grind arith in
    let from = s.offset + s.cp + i * ofdm_len s in
    let width : s.offset + (i + 1) * ofdm_len s - from ≡ s.fft_size = omega (arith, next) in
    length-take (s.offset + (i + 1) * ofdm_len s - from) (drop from samples)
      (omega (arith, length-drop from samples, last, next, size))
    ∙ width
