-- ===== src/Sequence/Prefix.antt =====
-- PYTHON/IrisUtils/generate_sequence.py: the cyclic prefix, and the LTS, which has its symbol twice.
-- The inverse FFT of a list of subcarriers (numpy) is `ifft`.
use houdini_lab.Common.Options.{◌>>=◌}
use houdini_lab.Common.{
  ℕ, List, [], length, Option, ◌∷◌, suc, if◌then◌else◌, none, ◌++◌, leb, replicate, some, zero, ◌-◌,
  ◌/◌, drop, ◌*◌,
}
use houdini_lab.Common.Int.{ℤ, pos, negsuc}

module _ {ℓ} {A : Type ℓ} where
  unfoldable pub repeat : ℕ → List A → List A
  repeat zero signal = []
  repeat (suc n) signal = signal ++ repeat n signal

  -- `signal[len(signal) - cp:]` before the copies of the signal. Python counts a negative start from
  -- the end.
  unfoldable pub affix_cp : ℕ → List A → ℕ → List A
  unfolding repeat
  affix_cp cp signal copies =
      let n = length signal in
      let start = if leb cp n then n - cp else n - (cp - n) in
      drop start signal ++ repeat copies signal

  -- The zeros around the subcarriers; with an upsampling of 0 their number is negative, which raises.
  unfoldable pub upsampled : A → List A → ℕ → Option (List A)
  upsampled null freq zero = none
  upsampled null freq (suc more) =
      let up_zeros = replicate (length freq / 2 * more) null in
      some (up_zeros ++ (freq ++ up_zeros))

abbrev pub lts_freq : List ℤ
lts_freq =
    pos 0
    ∷ pos 0
    ∷ pos 0
    ∷ pos 0
    ∷ pos 0
    ∷ pos 0
    ∷ pos 1
    ∷ pos 1
    ∷ negsuc 0
    ∷ negsuc 0
    ∷ pos 1
    ∷ pos 1
    ∷ negsuc 0
    ∷ pos 1
    ∷ negsuc 0
    ∷ pos 1
    ∷ pos 1
    ∷ pos 1
    ∷ pos 1
    ∷ pos 1
    ∷ pos 1
    ∷ negsuc 0
    ∷ negsuc 0
    ∷ pos 1
    ∷ pos 1
    ∷ negsuc 0
    ∷ pos 1
    ∷ negsuc 0
    ∷ pos 1
    ∷ pos 1
    ∷ pos 1
    ∷ pos 1
    ∷ pos 0
    ∷ pos 1
    ∷ negsuc 0
    ∷ negsuc 0
    ∷ pos 1
    ∷ pos 1
    ∷ negsuc 0
    ∷ pos 1
    ∷ negsuc 0
    ∷ pos 1
    ∷ negsuc 0
    ∷ negsuc 0
    ∷ negsuc 0
    ∷ negsuc 0
    ∷ negsuc 0
    ∷ pos 1
    ∷ pos 1
    ∷ negsuc 0
    ∷ negsuc 0
    ∷ pos 1
    ∷ negsuc 0
    ∷ pos 1
    ∷ negsuc 0
    ∷ pos 1
    ∷ pos 1
    ∷ pos 1
    ∷ pos 1
    ∷ pos 0
    ∷ pos 0
    ∷ pos 0
    ∷ pos 0
    ∷ pos 0
    ∷ []

unfoldable pub lts {ℓ} : {A : Type ℓ} → (List ℤ → List A) → ℕ → ℕ → Option (List A)
unfolding affix_cp upsampled
lts ifft cp upsample = do
  freq ← upsampled (pos 0) lts_freq upsample
  some (affix_cp cp (ifft freq) 2)
