-- ===== src/Sequence/Layout.antt =====
-- PYTHON/IrisUtils/generate_sequence.py: the places of the subcarriers, and what the cyclic prefix is for.
use houdini_lab.Common.{
  ℕ, ◌<◌, length, List, ◌≤◌, ◌*◌, ◌≡◌, drop, ◌+◌, suc, arith, take, ◌++◌, Bool-cases, ap, replicate,
  ◌-◌, leb, zero, length-replicate, [], inl, refl, length-append, inr, drop-append, sym, ◌∙◌,
  take-append, length-drop, true, take-after, drop-inside, take-inside, drop-drop, drop-after,
}
use houdini_lab.Sequence.Zadoff.{fft_length, zadoff_freq, phases, zc_prime, start_index, double_up}
use houdini_lab.Sequence.Prefix.{affix_cp, repeat}

double_up-above : (fuel size n : ℕ) → 0 < size → n ≤ size + fuel → n ≤ double_up fuel size n
unfolding double_up
double_up-above zero size n p h = omega arith
double_up-above (suc fuel) size n p h = elim (Bool-cases (leb n size)) [
  | inl fits ↦ rw fits (ground arith)
  | inr more ↦ rw more (double_up-above fuel (2 * size) n (omega arith) (omega arith))
]

double_up-below : (fuel size n : ℕ) → size < 2 * n → double_up fuel size n < 2 * n
unfolding double_up
double_up-below zero size n h = h
double_up-below (suc fuel) size n h = elim (Bool-cases (leb n size)) [
  | inl fits ↦ rw fits h
  | inr more ↦ rw more (double_up-below fuel (2 * size) n (ground arith))
]

fft_length-bounds : (n : ℕ) → 0 < n → (n ≤ fft_length n) × (fft_length n < 2 * n)
unfolding fft_length
fft_length-bounds zero h = absurd (omega arith)
fft_length-bounds (suc n) h = (
  double_up-above (suc n) 1 (suc n) (omega arith) (omega arith),
  double_up-below (suc n) 1 (suc n) (omega arith),
)

module _ {ℓ} {A : Type ℓ} (null : A) (exp : ℕ → ℕ → A) where
  length-phases : (n i prime : ℕ) → length (phases null exp n i prime) ≡ n
  unfolding phases
  length-phases zero i prime = refl
  length-phases (suc n) i prime = ap suc (length-phases n (suc i) prime)

  -- The sequence takes its length in the middle of the subcarriers, which are at least as many and less
  -- than twice as many; half of the ones that are left, rounded down, come before it.
  pub zadoff_freq-centred :
      (seq_length : ℕ)
      → 0 < seq_length
      → (length (zadoff_freq null exp seq_length) ≡ fft_length seq_length)
        × (seq_length ≤ fft_length seq_length)
        × (fft_length seq_length < 2 * seq_length)
        × (take seq_length (drop (start_index seq_length) (zadoff_freq null exp seq_length))
            ≡ phases null exp seq_length 0 (zc_prime seq_length))
  unfolding zadoff_freq
  zadoff_freq-centred n h =
      let (above, below) = fft_length-bounds n h in
      let zeros = replicate (start_index n) null in
      let middle = phases null exp n 0 (zc_prime n) in
      let rest = replicate (fft_length n - (start_index n + n)) null in
      let size = length-phases n 0 (zc_prime n) in
      let before = length-replicate (start_index n) null in
      let after = length-replicate (fft_length n - (start_index n + n)) null in
      (
        omega (
          arith,
          length-append zeros (middle ++ rest),
          length-append middle rest,
          size,
          before,
          after,
          above,
        ),
        above,
        below,
        ap (take n) (drop-append zeros (middle ++ rest) (start_index n) (sym before))
            ∙ take-append middle rest n (sym size),
      )

module _ {ℓ} {A : Type ℓ} where
  -- The signal from its i-th value on, and then the values before that one.
  abbrev pub rotated : ℕ → List A → List A
  rotated i signal = drop i signal ++ take i signal

  -- The end of one copy from the i-th value on, and another copy.
  window :
      (i : ℕ) (signal rest : List A)
      → i ≤ length signal
      → take (length signal) (drop i signal ++ (signal ++ rest)) ≡ rotated i signal
  window i signal rest h =
      take-after (length signal) i (drop i signal) (signal ++ rest)
        (omega (arith, length-drop i signal))
      ∙ ap (λ xs. drop i signal ++ xs) (take-inside i signal rest h)

  -- With a prefix no longer than the symbol and two copies after it, a window of the length of the
  -- symbol that starts in the prefix or in the first copy holds the symbol rotated.
  pub affix_cp-rotated :
      (cp : ℕ) (signal : List A)
      → cp ≤ length signal
      → ((i : ℕ)
          → i ≤ cp
          → take (length signal) (drop i (affix_cp cp signal 2))
            ≡ rotated (length signal - cp + i) signal)
        × ((i : ℕ)
            → i ≤ length signal
            → take (length signal) (drop (cp + i) (affix_cp cp signal 2)) ≡ rotated i signal)
  unfolding affix_cp repeat
  affix_cp-rotated cp signal c =
      let n = length signal in
      let fits : leb cp n ≡ true = ground arith in
      let size : length (drop (n - cp) signal) ≡ cp = omega (arith, length-drop (n - cp) signal) in
      let copies = signal ++ (signal ++ []) in
      (
        λ i inside.
            let early : drop i (drop (n - cp) signal ++ copies)
                ≡ drop (n - cp + i) signal ++ copies =
              drop-inside i (drop (n - cp) signal) copies (omega (arith, size))
              ∙ ap (λ xs. xs ++ copies) (drop-drop i (n - cp) (n - cp + i) signal refl) in
            rw (fits, early) (window (n - cp + i) signal (signal ++ []) (omega arith)),
        λ i inside.
            let late : drop (cp + i) (drop (n - cp) signal ++ copies)
                ≡ drop i signal ++ (signal ++ []) =
              drop-after (cp + i) i (drop (n - cp) signal) copies (omega (arith, size))
              ∙ drop-inside i signal (signal ++ []) inside in
            rw (fits, late) (window i signal [] inside),
      )
