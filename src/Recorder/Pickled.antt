-- ===== src/Recorder/Pickled.antt =====
-- PYTHON/IrisUtils/file_rdwr.py: the values of an array, pickled one after another, and read back into an
-- array of uint32. What numpy makes of a value in that array is `to_uint32`, none where it raises. To
-- read past the end of the file raises, too.
use mathlib.Core.Option.{some_inj}
use houdini_lab.Common.{
  ℕ, List, ◌∷◌, Option, ◌≡◌, ◌≤◌, length, ◌+◌, [], none, some, ap, ◌<◌, suc, refl, drop, take,
  arith, zero, length-drop, Bool-cases, ltb, inl, inr, Option-cases, get_elem?, map, length-map,
  ◌∙◌, map-drop,
}
use houdini_lab.Common.Options.{◌>>=◌}

module _ {A : Type 0} where
  -- The file is written anew.
  unfoldable pub write_to_file : List A → List A
  write_to_file [] = []
  write_to_file (a ∷ arr) = a ∷ write_to_file arr

  -- One `pickle.load`: the value, and the rest of the file.
  unfoldable pub load : List A → Option (A × List A)
  load [] = none
  load (a ∷ fi) = some (a, fi)

  unfoldable pub skip : ℕ → List A → Option (List A)
  skip zero fi = some fi
  skip (suc n) fi = do (a, rest) ← load fi; skip n rest

  written : (arr : List A) → write_to_file arr ≡ arr
  unfolding write_to_file
  written [] = refl
  written (a ∷ arr) = ap (λ xs. a ∷ xs) (written arr)

  skip-drop : (n : ℕ) (fi : List A) → n ≤ length fi → skip n fi ≡ some (drop n fi)
  unfolding skip load
  skip-drop zero fi h = refl
  skip-drop (suc n) [] h = absurd (omega arith)
  skip-drop (suc n) (a ∷ fi) h = skip-drop n fi (omega arith)

  skip-none : (n : ℕ) (fi : List A) → length fi < n → skip n fi ≡ none
  unfolding skip load
  skip-none zero fi h = absurd (omega arith)
  skip-none (suc n) [] h = refl
  skip-none (suc n) (a ∷ fi) h = skip-none n fi (omega arith)

module _ {A W : Type 0} (to_uint32 : A → Option W) where
  unfoldable pub read_values : ℕ → List A → Option (List W)
  read_values zero fi = some []
  read_values (suc n) fi = do
    (a, rest) ← load fi
    w ← to_uint32 a
    arr ← read_values n rest
    some (w ∷ arr)

  unfoldable pub read_from_file : ℕ → ℕ → List A → Option (List W)
  read_from_file leng offset fi = do rest ← skip offset fi; read_values leng rest

  read_values-none : (n : ℕ) (fi : List A) → length fi < n → read_values n fi ≡ none
  unfolding read_values load
  read_values-none zero fi h = absurd (omega arith)
  read_values-none (suc n) [] h = refl
  read_values-none (suc n) (a ∷ fi) h = elim (Option-cases (to_uint32 a)) [
    | inl bad ↦ rw bad refl
    | inr (w, good) ↦ rw (good, read_values-none n fi (omega arith), ◌>>=◌) refl
  ]

  read_values-bad :
      (n i : ℕ) (fi : List A) (a : A)
      → i < n
      → get_elem? fi i ≡ some a
      → to_uint32 a ≡ none
      → read_values n fi ≡ none
  unfolding read_values load
  read_values-bad zero i fi a h at_i bad = absurd (omega arith)
  read_values-bad (suc n) i [] a h at_i bad = refl
  read_values-bad (suc n) zero (b ∷ fi) a h at_i bad =
      let first : to_uint32 b ≡ none = ap to_uint32 (some_inj.0 at_i) ∙ bad in rw first refl
  read_values-bad (suc n) (suc i) (b ∷ fi) a h at_i bad = elim (Option-cases (to_uint32 b)) [
    | inl worse ↦ rw worse refl
    | inr (w, good) ↦ rw (good, read_values-bad n i fi a (omega arith) at_i bad, ◌>>=◌) refl
  ]

  -- A read of a file that was written raises if it goes past the end of the array, or if one of the values
  -- that it reads does not fit into an array of uint32.
  read_from_file-raises :
      (leng offset : ℕ) (arr : List A)
      → (length arr < offset + leng → read_from_file leng offset (write_to_file arr) ≡ none)
        × ((i : ℕ) (a : A)
            → i < leng
            → get_elem? (drop offset arr) i ≡ some a
            → to_uint32 a ≡ none
            → read_from_file leng offset (write_to_file arr) ≡ none)
  unfolding read_from_file
  read_from_file-raises leng offset arr = rw (written arr) (
    λ short. elim (Bool-cases (ltb (length arr) offset)) [
      | inl past ↦ rw (skip-none offset arr (ground arith)) refl
      | inr within ↦
          rw (skip-drop offset arr (ground arith))
            (read_values-none leng (drop offset arr) (ground (arith, length-drop offset arr)))
    ],
    λ i a below at_i bad. elim (Bool-cases (ltb (length arr) offset)) [
      | inl past ↦ rw (skip-none offset arr (ground arith)) refl
      | inr within ↦
          rw (skip-drop offset arr (ground arith))
            (read_values-bad leng i (drop offset arr) a below at_i bad)
    ],
  )

  module _ (word : W → A) (exact : (w : W) → to_uint32 (word w) ≡ some w) where
    read_values-take :
        (n : ℕ) (ws : List W) → n ≤ length ws → read_values n (map word ws) ≡ some (take n ws)
    unfolding read_values load
    read_values-take zero ws h = refl
    read_values-take (suc n) [] h = absurd (omega arith)
    read_values-take (suc n) (w ∷ ws) h =
        rw (exact w, read_values-take n ws (omega arith), ◌>>=◌) refl

    pub read_from_file-write_to_file :
        (leng offset : ℕ) (ws : List W) (arr : List A)
        → (offset + leng ≤ length ws
            → read_from_file leng offset (write_to_file (map word ws))
              ≡ some (take leng (drop offset ws)))
          × (length ws < offset + leng
              → read_from_file leng offset (write_to_file (map word ws)) ≡ none)
          × ((i : ℕ) (a : A)
              → i < leng
              → get_elem? (drop offset arr) i ≡ some a
              → to_uint32 a ≡ none
              → read_from_file leng offset (write_to_file arr) ≡ none)
    unfolding read_from_file
    read_from_file-write_to_file leng offset ws arr =
        let long = length-map ws word in
        (
          λ fits.
              rw
                (
                  written (map word ws),
                  skip-drop offset (map word ws) (omega arith),
                  ◌>>=◌,
                  ← map-drop word offset ws,
                )
                (read_values-take leng (drop offset ws) (omega (arith, length-drop offset ws))),
          λ short. (read_from_file-raises leng offset (map word ws)).0 (omega arith),
          (read_from_file-raises leng offset arr).1,
        )
