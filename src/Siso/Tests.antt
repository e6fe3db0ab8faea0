-- ===== src/Siso/Tests.antt =====
-- PYTHON/DEMOS/SISO_OFDM.py: runs of the receiver and of the sweep.
use houdini_lab.Siso.Link.{animate-tx_signal}
use houdini_lab.Siso.Errors.{animate-rejects}
use houdini_lab.Siso.Signal.{tx_signal}
use houdini_lab.Sequence.Prefix.{affix_cp}
use houdini_lab.Siso.Received.{params_of, sent_symbols}
use houdini_lab.Ofdm.Symbols.{build_signal}
use houdini_lab.Siso.Gains.{find_optimal_gain, after, find_optimal_gain-swept}
use houdini_lab.Siso.Receiver.{
  animate, OfdmParams, incorrect_start, too_early, index_error, windows,
}
use houdini_lab.Common.{
  ℕ, List, ◌≢◌, ◌∷◌, if◌then◌else◌, ◌≡◌, [], length, replicate, ◌==◌, refl, suc, Bool-cases, some,
  map, true, zero, inl, ◌≤◌, ◌+◌, arith, ◌*◌, inr, length-map,
}
use houdini_lab.Sequence.Layout.{rotated}

-- How many samples of two windows differ, as the estimate of an offset, and a correction by it.
abbrev differing : List ℕ → List ℕ → ℕ
differing [] ys = 0
differing (x ∷ xs) [] = 0
differing (x ∷ xs) (y ∷ ys) = let rest = differing xs ys in if x == y then rest else suc rest

abbrev shifted : ℕ → List ℕ → List ℕ
shifted offset xs = if offset == 0 then xs else map (λ x. x + offset) xs

differing_self : (xs : List ℕ) → differing xs xs ≡ 0
differing_self [] = refl
differing_self (x ∷ xs) = let same : (x == x) ≡ true = ground arith in rw same (differing_self xs)

steady : (w xs : List ℕ) → shifted (differing w w) xs ≡ xs
steady w xs = rw (differing_self w) refl

abbrev counted_from : ℕ → ℕ → List ℕ
counted_from zero i = []
counted_from (suc n) i = i ∷ counted_from n (suc i)

abbrev lts_symbol : List ℕ
lts_symbol = counted_from 64 1

abbrev four_pilots : List ℕ
four_pilots = 1 ∷ 1 ∷ 1 ∷ 1 ∷ []

abbrev sent : List ℕ
sent = build_signal (λ xs. xs) 0 four_pilots 16 2 (counted_from 96 100)

abbrev sts_sym : List ℕ
sts_sym = replicate 160 7

-- Two OFDM symbols with the demo's lengths of the prefixes and its FFT offset of 6.
animate-tx_signal_example :
    animate 0 differing shifted
      (params_of 2 16 6 sent (affix_cp 32 lts_symbol 2))
      (tx_signal (λ x. 3 * x) 0 sts_sym (affix_cp 32 lts_symbol 2) sent)
      (some (30 + length sts_sym + 159))
    ≡ windows
        (rotated 59 (map (λ x. 3 * x) lts_symbol))
        (rotated 59 (map (λ x. 3 * x) lts_symbol))
        (map
          (rotated 59)
          (map (map (λ x. 3 * x)) (sent_symbols (λ xs. xs) 0 four_pilots 2 (counted_from 96 100))))
animate-tx_signal_example =
    animate-tx_signal 0 differing shifted steady (λ x. 3 * x) (λ xs. xs) (λ xs. refl) 0 four_pilots
      sts_sym lts_symbol (counted_from 96 100) refl 2 16 6 (omega arith) (omega arith) (omega arith)
      (omega arith)

abbrev no_offset : OfdmParams
no_offset = record {
  n_ofdm_syms = 1;
  data_cp_len = 16;
  num_sc = 64;
  fft_offset = 0;
  payload_len = 80;
  lts_syms_len = 160;
}

shifted-length : (e : ℕ) (xs : List ℕ) → length (shifted e xs) ≡ length xs
shifted-length e xs = elim (Bool-cases (e == 0)) [
  | inl h ↦ rw h refl
  | inr h ↦ rw h (length-map xs (λ x. x + e))
]

animate-rejects_example :
    (no_offset.lts_syms_len ≢ 160
      → animate 0 differing shifted no_offset (replicate 300 1) (some 200) ≡ incorrect_start)
    × (no_offset.lts_syms_len ≡ 160
        → no_offset.fft_offset ≡ 0
        → animate 0 differing shifted no_offset (replicate 300 1) (some 200) ≡ index_error)
animate-rejects_example =
    animate-rejects 0 differing shifted shifted-length no_offset (replicate 300 1) 200 (omega arith)
      (omega arith) (omega arith)

find_optimal_gain-swept_example :
    (find_optimal_gain 90 (after 89) ≡ some (after 90, 10, 12)) × (10 ≤ 26) × (12 ≤ 26)
find_optimal_gain-swept_example = find_optimal_gain-swept 89

too_early_lem : animate 0 differing shifted no_offset (replicate 300 1) (some 100) ≡ too_early
unfolding animate
too_early_lem = refl
