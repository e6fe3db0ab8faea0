-- ===== src/Siso/Link.antt =====
-- PYTHON/DEMOS/SISO_OFDM.py: the simulation mode without its noise, where the receiver's samples are
-- the signal that txrx_app builds.
use houdini_lab.Siso.Windows.{length-affix_cp, map-affix_cp}
use houdini_lab.Sequence.Prefix.{affix_cp}
use houdini_lab.Ofdm.Symbols.{build_signal}
use houdini_lab.Siso.Received.{
  params_of, sent_symbols, scaled_signal, animate-windows, sized, counted,
}
use houdini_lab.Siso.Receiver.{animate, windows}
use houdini_lab.Siso.Signal.{tx_signal}
use houdini_lab.Common.{
  ℕ, List, map, length, ◌≡◌, replicate, ◌++◌, ◌+◌, ◌≤◌, map-append, arith, ◌∙◌, length-append, ap,
  length-map, append_assoc, length-replicate, sym, some, ◌-◌, refl,
}
use houdini_lab.Sequence.Layout.{rotated}

module _ {A : Type 0} (scale : A → A) (null : A) (sts lts_sym sig_t : List A) where
  abbrev before : List A
  before = map scale (replicate 30 null) ++ map scale sts

  layout :
      tx_signal scale null sts lts_sym sig_t
      ≡ before ++ (map scale lts_sym ++ (map scale sig_t ++ map scale (replicate 30 null)))
  unfolding tx_signal
  layout =
      let zeros = replicate 30 null in
      map-append scale zeros ((sts ++ lts_sym) ++ (sig_t ++ zeros))
      ∙ ap (λ ys. map scale zeros ++ ys)
          (map-append scale (sts ++ lts_sym) (sig_t ++ zeros)
            ∙ ap (λ ys. ys ++ map scale (sig_t ++ zeros)) (map-append scale sts lts_sym)
            ∙ ap (λ ys. (map scale sts ++ map scale lts_sym) ++ ys) (map-append scale sig_t zeros)
            ∙ append_assoc (map scale sts) (map scale lts_sym) (map scale sig_t ++ map scale zeros))
      ∙ sym (append_assoc (map scale zeros) (map scale sts) _)

  length-before : length before ≡ 30 + length sts
  length-before = omega (
    arith,
    length-append (map scale (replicate 30 null)) (map scale sts),
    length-map (replicate 30 null) scale,
    length-replicate 30 null,
    length-map sts scale,
  )

module _ {A : Type 0} where
  -- A signal as txrx_app builds it, with an LTS prefix of 32 samples, whose LTS peak was found at the last
  -- sample of the LTS, is accepted. With an offset that the prefixes have room for, the two windows of the
  -- LTS and the window of each of the data's symbols, in order, are the sent and scaled symbols, every
  -- one turned by the same number of samples.
  pub animate-tx_signal :
      {E : Type 0} (zero_offset : E) (estimate : List A → List A → E)
      → (derotate : E → List A → List A) → ((w xs : List A) → derotate (estimate w w) xs ≡ xs)
      → (scale : A → A) (ifft : List A → List A) → ((xs : List A) → length (ifft xs) ≡ length xs)
      → (null : A) (pilots sts symbol symbols : List A) → length symbol ≡ 64
      → (n cp off : ℕ) → cp ≤ 64
      → 1 ≤ off
      → off ≤ cp + 1
      → off ≤ 33
      → animate zero_offset estimate derotate
          (params_of n cp off (build_signal ifft null pilots cp n symbols) (affix_cp 32 symbol 2))
          (tx_signal scale null sts
            (affix_cp 32 symbol 2)
            (build_signal ifft null pilots cp n symbols))
          (some (30 + length sts + 159))
        ≡ windows
            (rotated (65 - off) (map scale symbol))
            (rotated (65 - off) (map scale symbol))
            (map (rotated (65 - off)) (map (map scale) (sent_symbols ifft null pilots n symbols)))
  animate-tx_signal zero_offset estimate derotate steady scale ifft same null pilots sts symbol
        symbols h n cp off c low high inside =
      let sig_t = build_signal ifft null pilots cp n symbols in
      let lts_sym = affix_cp 32 symbol 2 in
      let s = params_of n cp off sig_t lts_sym in
      let pre = before scale null sts lts_sym sig_t in
      let syms = map (map scale) (sent_symbols ifft null pilots n symbols) in
      let size = length-before scale null sts lts_sym sig_t in
      let scaled = scaled_signal scale ifft same null pilots cp n symbols in
      let taken =
        animate-windows s pre (map scale symbol) (map scale (replicate 30 null)) syms refl c low
          high inside (length-map symbol scale ∙ h) (sized scale ifft same null pilots n symbols)
          (length-affix_cp symbol h) (sym (length-map sig_t scale) ∙ ap length scaled)
          (sym (counted scale ifft same null pilots n symbols)) zero_offset estimate derotate steady
          (omega (arith, size)) in
      ap (animate zero_offset estimate derotate s (tx_signal scale null sts lts_sym sig_t))
        (ap (λ k. some (k + 159)) (sym size))
      ∙ ap (λ xs. animate zero_offset estimate derotate s xs (some (length pre + 159)))
          (layout scale null sts lts_sym sig_t
            ∙ ap (λ xs. pre ++ (xs ++ (map scale sig_t ++ map scale (replicate 30 null))))
                (map-affix_cp scale symbol h)
            ∙ ap
                (λ xs.
                  pre
                  ++ (affix_cp 32 (map scale symbol) 2 ++ (xs ++ map scale (replicate 30 null))))
                scaled)
      ∙ taken
