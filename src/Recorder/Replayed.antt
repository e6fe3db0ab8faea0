-- ===== src/Recorder/Replayed.antt =====
-- PYTHON/IrisUtils/data_recorder.py: what a recording holds, and what replay makes of it.
use houdini_lab.Recorder.Frames.{
  resize, recorded, init_h5file, save_frame, replay, H5file, total, Rssi,
}
use houdini_lab.Common.{
  ℕ, List, set, length, ◌++◌, ◌≤◌, ◌≡◌, ◌∷◌, take, ◌+◌, ◌<◌, [], suc, ◌-◌, ap, arith, refl, zero,
  length-append, ◌∙◌, append_assoc,
}

set-grown :
    {B : Type 0} (null v : B) (xs : List B) → set (xs ++ (null ∷ [])) (length xs) v ≡ xs ++ (v ∷ [])
set-grown null v [] = refl
set-grown null v (x ∷ xs) = ap (λ ys. x ∷ ys) (set-grown null v xs)

take-all : {B : Type 0} (n : ℕ) (xs : List B) → length xs ≤ n → take n xs ≡ xs
take-all zero [] h = refl
take-all (suc n) [] h = refl
take-all zero (x ∷ xs) h = absurd (omega arith)
take-all (suc n) (x ∷ xs) h = ap (λ ys. x ∷ ys) (take-all n xs (omega arith))

module _ {A : Type 0} where
  abbrev pub frames_of : List (A × ℕ) → List A
  frames_of [] = []
  frames_of ((frame, time) ∷ rest) = frame ∷ frames_of rest

  abbrev pub times_of : List (A × ℕ) → List ℕ
  times_of [] = []
  times_of ((frame, time) ∷ rest) = time ∷ times_of rest

  length-frames_of : (frames : List (A × ℕ)) → length (frames_of frames) ≡ length frames
  length-frames_of [] = refl
  length-frames_of ((frame, time) ∷ rest) = ap suc (length-frames_of rest)

module _ {A : Type 0} (zeros : A) where
  -- One more row.
  resize-grown :
      {B : Type 0} (null : B) (n : ℕ) (xs : List B)
      → length xs ≡ n
      → resize zeros null (n + 1) xs ≡ xs ++ (null ∷ [])
  unfolding resize
  resize-grown null n xs h =
      let one : n + 1 - length xs ≡ 1 = omega arith in
      rw (take-all (n + 1) xs (omega arith), one) refl

  written-grown :
      {B : Type 0} (null v : B) (n : ℕ) (xs : List B)
      → length xs ≡ n
      → set (resize zeros null (n + 1) xs) (n + 1 - 1) v ≡ xs ++ (v ∷ [])
  written-grown null v n xs h =
      let last : n + 1 - 1 ≡ length xs = omega arith in
      rw (resize-grown null n xs h, last) (set-grown null v xs)

  -- A recording appends its frames and times; the attribute counts all the rows.
  recorded-appended :
      (f : H5file A) (frames : List (A × ℕ))
      → length f.time_ref ≡ length f.samples
      → 0 < length frames
      → recorded zeros f frames ≡ record {
        samples = f.samples ++ frames_of frames;
        time_ref = f.time_ref ++ times_of frames;
        num_frames = length f.samples + length frames;
      }
  unfolding recorded save_frame
  recorded-appended f [] e h = absurd (omega arith)
  recorded-appended f ((frame, time) ∷ []) e h =
      let rows = written-grown zeros frame (length f.samples) f.samples refl in
      let times = written-grown 0 time (length f.samples) f.time_ref e in rw (rows, times) refl
  recorded-appended f ((frame, time) ∷ (p ∷ rest)) e h =
      let rows = written-grown zeros frame (length f.samples) f.samples refl in
      let times = written-grown 0 time (length f.samples) f.time_ref e in
      let grown : length (f.samples ++ (frame ∷ [])) ≡ length f.samples + 1 =
        length-append f.samples (frame ∷ []) in
      let even : length (f.time_ref ++ (time ∷ [])) ≡ length (f.samples ++ (frame ∷ [])) =
        omega (arith, grown, length-append f.time_ref (time ∷ []), e) in
      let next : length f.samples + 1 + suc (length rest)
          ≡ length f.samples + suc (suc (length rest)) =
        omega arith in
      rw (rows, times)
        (recorded-appended
            (record {
              samples = f.samples ++ (frame ∷ []);
              time_ref = f.time_ref ++ (time ∷ []);
              num_frames = length f.samples + 1;
            })
            (p ∷ rest) even (omega arith)
          ∙ rw
              (
                append_assoc f.samples (frame ∷ []) (frames_of (p ∷ rest)),
                append_assoc f.time_ref (time ∷ []) (times_of (p ∷ rest)),
                grown,
                next,
              )
              refl)

  total-silent :
      (power : A → Rssi) (xs : List A)
      → power zeros ≡ record { chain_a = 0; chain_b = 0 }
      → total power (zeros ∷ xs) ≡ total power xs
  unfolding total
  total-silent power xs silent =
      let rest = total power xs in
      let a : 0 + rest.chain_a ≡ rest.chain_a = omega arith in
      let b : 0 + rest.chain_b ≡ rest.chain_b = omega arith in rw (silent, a, b) refl

  -- A file with at least one recorded frame begins with a row that was never written, and then has the
  -- frames with their times, in order. Replay sums the power of the recorded frames, where a row of
  -- zeros has none, but divides the sums by one more than their number.
  pub replay-recorded :
      (power : A → Rssi)
      → power zeros ≡ record { chain_a = 0; chain_b = 0 }
      → (frames : List (A × ℕ)) → 0 < length frames
      → (recorded zeros (init_h5file zeros) frames ≡ record {
        samples = zeros ∷ frames_of frames;
        time_ref = 0 ∷ times_of frames;
        num_frames = length frames + 1;
      })
        × (replay power (recorded zeros (init_h5file zeros) frames)
            ≡ (total power (frames_of frames), length frames + 1))
  unfolding init_h5file replay
  replay-recorded power silent frames h =
      let next : 1 + length frames ≡ length frames + 1 = omega arith in
      let all =
        recorded-appended (init_h5file zeros) frames refl h
        ∙ ap
            (λ n. record {
              samples = zeros ∷ frames_of frames;
              time_ref = 0 ∷ times_of frames;
              num_frames = n;
            })
            next in
      let size : suc (length (frames_of frames)) ≡ length frames + 1 =
        omega (arith, length-frames_of frames) in
      (all, rw (all, total-silent power (frames_of frames) silent, size) refl)
