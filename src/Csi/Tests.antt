-- ===== src/Csi/Tests.antt =====
-- Runs of the conversion on numbers, with `fft` the identity.
use houdini_lab.Sequence.Zadoff.{fft_length, double_up}
use houdini_lab.Csi.Pilots.{
  Spectrum, SlotArgs, samps2csi_large, Frame, samps2csi, nonzero_sc_size, is_expected, user_csi,
  antenna_csi, window, estimates,
}
use houdini_lab.Common.{
  List, ℕ, drop, ◌==◌, ◌∷◌, false, true, length, ◌/◌, [], ◌≡◌, ◌++◌, some, take, refl, map, arith,
  ◌*◌,
}
use houdini_lab.Csi.Chunks.{samps2csi_large-chunks, stored_csi}

abbrev swap_halves : List ℕ → List ℕ
swap_halves xs = drop (length xs / 2) xs ++ take (length xs / 2) xs

abbrev numbers : Spectrum
numbers = record {
  Value = ℕ;
  is_null = λ p. p == 0;
  divided = λ x p. x / p;
  fft = λ xs. xs;
  fftshift = swap_halves;
  single = λ x. x / 4 * 4;
}

abbrev slot : SlotArgs
slot = record { samps_per_user = 5; fft_size = 2; offset = 0; bound = 1; cp = 0 }

abbrev pilot : List ℕ
pilot = 1 ∷ 2 ∷ []

abbrev frame : ℕ → Frame numbers slot pilot
frame n = ((n ∷ 2 ∷ 3 ∷ 4 ∷ 5 ∷ []) ∷ []) ∷ []

abbrev recording : List (Frame numbers slot pilot)
recording = frame 1 ∷ frame 6 ∷ frame 7 ∷ []

expected : is_expected numbers slot pilot ≡ true
unfolding fft_length double_up nonzero_sc_size
expected = refl

samps2csi_large-chunks_example :
    samps2csi_large numbers slot pilot 2 false recording
    ≡ some (
        some (
          map (stored_csi numbers slot pilot true) (frame 1 ∷ frame 6 ∷ [])
          ++ map (stored_csi numbers slot pilot false) (frame 7 ∷ [])))
samps2csi_large-chunks_example =
    samps2csi_large-chunks numbers slot pilot expected 1 false recording (omega arith)

-- One user with one antenna, and two repetitions.
samps2csi_lem :
    samps2csi numbers slot pilot true (frame 1 ∷ [])
    ≡ some (((((2 ∷ 0 ∷ []) ∷ []) ∷ ((4 ∷ 1 ∷ []) ∷ []) ∷ []) ∷ []) ∷ [])
unfolding samps2csi user_csi antenna_csi window estimates fft_length double_up nonzero_sc_size
samps2csi_lem = refl
