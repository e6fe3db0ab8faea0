-- ===== src/Csi/Chunks.antt =====
-- PYTHON/IrisUtils/hdf5_lib.py, samps2csi_large: what the conversion in chunks gives.
use houdini_lab.Agc.Gains.{◌>>=◌}
use houdini_lab.Common.{
  List, map, ◌≡◌, ◌++◌, true, Bool, ℕ, ap, some, suc, refl, drop, ◌<◌, ◌*◌, length, Bool-cases,
  take, ltb, inl, inr, drop-all, arith, ◌+◌, zero, map-append, ◌/◌, drop-drop, ◌-◌,
  append-take-drop, ◌∷◌, [],
}
use houdini_lab.Csi.Pilots.{
  Spectrum, SlotArgs, chunks, samps2csi, samps2csi_large, frame_csi, Frame, is_expected, FrameCsi,
  single_csi,
}

map-map :
    {A B C : Type 0} (f : A → B) (h : B → C) (xs : List A)
    → map h (map f xs) ≡ map (λ x. h (f x)) xs
map-map f h [] = refl
map-map f h (x ∷ xs) = ap (λ ys. h (f x) ∷ ys) (map-map f h xs)

-- A frame's estimates as the array of complex64 holds them.
abbrev pub stored_csi :
    (np : Spectrum) (s : SlotArgs) (pilot_f : List np.Value)
    → Bool
    → Frame np s pilot_f
    → FrameCsi np s pilot_f
stored_csi np s pilot_f fft_shifted f =
    single_csi np s pilot_f (frame_csi np s pilot_f fft_shifted f)

module _ (np : Spectrum) (s : SlotArgs) (pilot_f : List np.Value)
    (fits : is_expected np s pilot_f ≡ true) where
  samps2csi-map :
      (fft_shifted : Bool) (samps : List (Frame np s pilot_f))
      → samps2csi np s pilot_f fft_shifted samps
        ≡ some (map (frame_csi np s pilot_f fft_shifted) samps)
  unfolding samps2csi
  samps2csi-map fft_shifted samps = rw fits refl

  chunks-map :
      (c n i : ℕ) (fft_shifted : Bool) (samps : List (Frame np s pilot_f))
      → chunks np s pilot_f c fft_shifted n i samps
        ≡ some (map (stored_csi np s pilot_f fft_shifted) (drop (i * c) samps))
  unfolding chunks
  chunks-map c zero i fft_shifted samps = elim (Bool-cases (ltb (i * c) (length samps))) [
    | inl more ↦
        rw (more, samps2csi-map fft_shifted (drop (i * c) samps), ◌>>=◌)
          (ap some (map-map (frame_csi np s pilot_f fft_shifted) (single_csi np s pilot_f) _))
    | inr done ↦ rw (done, drop-all (i * c) samps (ground arith)) refl
  ]
  chunks-map c (suc n) i fft_shifted samps =
      let left = drop (i * c) samps in
      let next : suc i * c ≡ i * c + c = grind arith in
      let kept =
        map-map (frame_csi np s pilot_f fft_shifted) (single_csi np s pilot_f) (take c left) in
      let split = map-append (stored_csi np s pilot_f fft_shifted) (take c left) (drop c left) in
      let after : drop c left ≡ drop (suc i * c) samps =
        drop-drop c (i * c) (suc i * c) samps next in
      rw
        (
          samps2csi-map fft_shifted (take c left),
          chunks-map c n (suc i) fft_shifted samps,
          ◌>>=◌,
          kept,
          ← after,
          ← split,
          append-take-drop c left,
        )
        refl

  pub samps2csi_large-chunks :
      (c : ℕ) (fft_shifted : Bool) (samps : List (Frame np s pilot_f))
      → suc c < length samps
      → samps2csi_large np s pilot_f (suc c) fft_shifted samps
        ≡ some (
            some (
              map (stored_csi np s pilot_f true) (take (suc c) samps)
              ++ map (stored_csi np s pilot_f fft_shifted) (drop (suc c) samps)))
  unfolding samps2csi_large
  samps2csi_large-chunks c fft_shifted samps h =
      let longer : ltb (suc c) (length samps) ≡ true = ground arith in
      let whole : 1 * suc c ≡ suc c = omega arith in
      let rest = chunks-map (suc c) (length samps / suc c - 1) 1 fft_shifted samps in
      let kept =
        map-map (frame_csi np s pilot_f true) (single_csi np s pilot_f) (take (suc c) samps) in
      rw (longer, samps2csi-map true (take (suc c) samps), rest, ◌>>=◌, whole, kept) refl
