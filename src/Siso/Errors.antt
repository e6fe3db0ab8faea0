-- ===== src/Siso/Errors.antt =====
-- PYTHON/DEMOS/SISO_OFDM.py: the options with which no packet is ever received.
use houdini_lab.Siso.Picked.{pick_range-slice}
use houdini_lab.Siso.Receiver.{
  pick_range, pick, lts_windows, slice, OfdmParams, animate, cfo_correction, channel,
  incorrect_start, index_error,
}
use houdini_lab.Common.{
  ℕ, List, length, ◌≤◌, get_elem?, ◌+◌, ◌≡◌, ◌<◌, none, ◌∷◌, arith, ◌-◌, suc, refl, length-take, [],
  leb, drop, zero, true, length-drop, ◌≢◌, Bool-cases, some, ◌==◌, inl, inr, false, get_elem?-some,
  ltb, ◌∙◌,
}

module _ {A : Type 0} where
  get_elem?-none : (xs : List A) (i : ℕ) → length xs ≤ i → get_elem? xs i ≡ none
  get_elem?-none [] i h = refl
  get_elem?-none (x ∷ xs) zero h = absurd (omega arith)
  get_elem?-none (x ∷ xs) (suc i) h = get_elem?-none xs i (omega arith)

  -- A window that begins in the samples or right behind them, and ends past them.
  pick_range-none :
      (n off p : ℕ) (xs : List A)
      → off ≤ p
      → p ≤ length xs + off
      → length xs + off < p + n
      → pick_range xs off n p ≡ none
  unfolding pick_range pick
  pick_range-none zero off p xs h low high = absurd (omega arith)
  pick_range-none (suc n) off p xs h low high =
      let after : leb off p ≡ true = ground arith in
      elim (Bool-cases (p == length xs + off)) [
        | inl e ↦ rw (after, get_elem?-none xs (p - off) (ground arith)) refl
        | inr e ↦
            let (x, found) = get_elem?-some xs (p - off) (ground arith) in
            let rest =
              pick_range-none n off (suc p) xs (omega arith) (ground arith) (omega arith) in
            rw (after, found, rest) refl
      ]

  lts_windows-zero : (lts : List A) → length lts ≡ 160 → lts_windows 0 lts ≡ none
  lts_windows-zero lts h =
      let one = pick_range-slice 64 0 33 33 lts (omega arith) (omega arith) in
      let two = pick_range-none 64 0 97 lts (omega arith) (omega arith) (omega arith) in
      rw (one, two) refl

  length-slice :
      (n a : ℕ) (xs : List A) → n ≤ a → a < length xs → length (slice (a + 1 - n) n xs) ≡ n
  length-slice n a xs h below =
      length-take n (drop (a + 1 - n) xs) (omega (arith, length-drop (a + 1 - n) xs))

  module _ {E : Type 0} (zero_offset : E) (estimate : List A → List A → E)
      (derotate : E → List A → List A)
      (same : (e : E) (xs : List A) → length (derotate e xs) ≡ length xs) (s : OfdmParams)
      (rx_signal : List A) (a : ℕ) (some_peak : 0 < a) (whole : s.lts_syms_len ≤ a)
      (below : a < length rx_signal) where
    -- With the whole LTS before a peak within the samples: an LTS of a length other than 160, which is the
    -- length with a prefix of 32, is always rejected; and with a length of 160 and an FFT offset of 0 an
    -- index is out of range.
    pub animate-rejects :
        (s.lts_syms_len ≢ 160
          → animate zero_offset estimate derotate s rx_signal (some a) ≡ incorrect_start)
        × (s.lts_syms_len ≡ 160
            → s.fft_offset ≡ 0
            → animate zero_offset estimate derotate s rx_signal (some a) ≡ index_error)
    unfolding animate cfo_correction channel
    animate-rejects =
        let nonzero : (a == 0) ≡ false = ground arith in
        let late : ltb a s.lts_syms_len ≡ false = ground arith in
        let size = length-slice s.lts_syms_len a rx_signal whole below in
        let turned = derotate zero_offset rx_signal in
        let size' =
          length-slice s.lts_syms_len a turned whole (omega (arith, same zero_offset rx_signal)) in
        (
          λ other.
              let wrong : (s.lts_syms_len == 160) ≡ false = ground arith in
              rw (nonzero, late, size, wrong, size', wrong) refl,
          λ full zero_off.
              let cut =
                lts_windows-zero (slice (a + 1 - s.lts_syms_len) s.lts_syms_len rx_signal)
                  (size ∙ full) in
              let right : (s.lts_syms_len == 160) ≡ true = ground arith in
              rw (nonzero, late, size, right, zero_off, cut) refl,
        )
