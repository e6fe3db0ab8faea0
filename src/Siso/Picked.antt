-- ===== src/Siso/Picked.antt =====
-- PYTHON/DEMOS/SISO_OFDM.py: the samples of a window are the ones between two positions.
use houdini_lab.Siso.Receiver.{pick_range, pick, slice}
use houdini_lab.Common.{
  ℕ, List, ◌<◌, ◌≤◌, length, ◌≡◌, drop, get_elem?, ◌+◌, suc, some, ◌∷◌, ◌-◌, arith, [], leb, ap,
  zero, length-drop, length-append, refl, true, ◌++◌, drop-inside, ◌∙◌, drop-drop, take-after,
}
use houdini_lab.Ofdm.Symbols.{add_cp}
use houdini_lab.Sequence.Layout.{rotated}

module _ {A : Type 0} where
  slice-step :
      (n i : ℕ) (xs : List A)
      → i < length xs
      → (x : A) × (get_elem? xs i ≡ some x) × (slice i (suc n) xs ≡ x ∷ slice (suc i) n xs)
  slice-step n i [] h = absurd (omega arith)
  slice-step n zero (x ∷ xs) h = (x, refl, refl)
  slice-step n (suc i) (x ∷ xs) h = slice-step n i xs (omega arith)

  -- A window that begins after the offset and ends in the samples.
  pub pick_range-slice :
      (n off p i : ℕ) (xs : List A)
      → p ≡ i + off
      → i + n ≤ length xs
      → pick_range xs off n p ≡ some (slice i n xs)
  unfolding pick_range pick
  pick_range-slice zero off p i xs e h = refl
  pick_range-slice (suc n) off p i xs e h =
      let (x, found, step) = slice-step n i xs (omega arith) in
      let after : leb off p ≡ true = ground arith in
      let at_i : p - off ≡ i = omega arith in
      let rest = pick_range-slice n off (suc p) (suc i) xs (omega arith) (omega arith) in
      rw (after, at_i, found, rest, step) refl

  -- A window of a symbol with its prefix that starts in the prefix.
  pub slice-add_cp :
      (cp i : ℕ) (signal : List A)
      → cp ≤ length signal
      → i ≤ cp
      → slice i (length signal) (add_cp cp signal) ≡ rotated (length signal - cp + i) signal
  unfolding add_cp
  slice-add_cp cp i signal c h =
      let n = length signal in
      let size : length (drop (n - cp) signal) ≡ cp = omega (arith, length-drop (n - cp) signal) in
      let early : drop i (drop (n - cp) signal ++ signal) ≡ drop (n - cp + i) signal ++ signal =
        drop-inside i (drop (n - cp) signal) signal (omega (arith, size))
        ∙ ap (λ xs. xs ++ signal) (drop-drop i (n - cp) (n - cp + i) signal refl) in
      rw early (
        take-after n (n - cp + i) (drop (n - cp + i) signal) signal
          (omega (arith, length-drop (n - cp + i) signal)))

  pub length-add_cp :
      (cp : ℕ) (signal : List A)
      → cp ≤ length signal
      → length (add_cp cp signal) ≡ length signal + cp
  unfolding add_cp
  length-add_cp cp signal c = omega (
    arith,
    length-append (drop (length signal - cp) signal) signal,
    length-drop (length signal - cp) signal,
  )
