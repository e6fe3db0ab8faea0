-- ===== src/Siso/Received.antt =====
-- PYTHON/DEMOS/SISO_OFDM.py: what txrx_app sends is what animate cuts out.
use houdini_lab.Sequence.Prefix.{affix_cp}
use houdini_lab.Sequence.Layout.{rotated}
use houdini_lab.Ofdm.Received.{length-column}
use houdini_lab.Siso.Windows.{
  prefixed, map-add_cp, length-affix_cp, length-prefixed, lts_windows-affix_cp,
  remove_prefixes-rotated,
}
use houdini_lab.Ofdm.Symbols.{build_signal, column, add_cp}
use houdini_lab.Siso.Receiver.{
  OfdmParams, slice, payload, channel, windows, remove_prefixes, animate, columns, cfo_correction,
}
use houdini_lab.Common.{
  ℕ, List, length, [], ◌≡◌, suc, All, map, ◌≤◌, ap, ◌+◌, take, drop, ◌∷◌, length-map, zero, ◌∙◌,
  refl, map-append, ◌++◌, arith, drop-after, length-append, ◌-◌, drop-append, ltb, ◌==◌,
  take-append, sym, false, true, ◌*◌, some,
}

-- The parameters with 64 subcarriers, which are all that main accepts, and the lengths of tx_struct.
abbrev pub params_of : {A : Type 0} → ℕ → ℕ → ℕ → List A → List A → OfdmParams
params_of n_ofdm_syms data_cp_len fft_offset sig_t lts_sym = record {
  n_ofdm_syms = n_ofdm_syms;
  data_cp_len = data_cp_len;
  num_sc = 64;
  fft_offset = fft_offset;
  payload_len = length sig_t;
  lts_syms_len = length lts_sym;
}

module _ {A : Type 0} where
  -- The symbols that generate_data sends, without their prefixes.
  unfoldable pub sent_symbols : (List A → List A) → A → List A → ℕ → List A → List (List A)
  sent_symbols ifft null pilots zero symbols = []
  sent_symbols ifft null pilots (suc n) symbols =
      ifft (column null pilots (take 48 symbols))
      ∷ sent_symbols ifft null pilots n (drop 48 symbols)

  module _ (scale : A → A) (ifft : List A → List A)
      (same : (xs : List A) → length (ifft xs) ≡ length xs) (null : A) (pilots : List A) where
    pub scaled_signal :
        (cp n : ℕ) (symbols : List A)
        → map scale (build_signal ifft null pilots cp n symbols)
          ≡ prefixed cp (map (map scale) (sent_symbols ifft null pilots n symbols))
    unfolding build_signal sent_symbols
    scaled_signal cp zero symbols = refl
    scaled_signal cp (suc n) symbols =
        let x = ifft (column null pilots (take 48 symbols)) in
        map-append scale (add_cp cp x) (build_signal ifft null pilots cp n (drop 48 symbols))
        ∙ ap (λ ys. ys ++ map scale (build_signal ifft null pilots cp n (drop 48 symbols)))
            (map-add_cp scale cp x)
        ∙ ap (λ ys. add_cp cp (map scale x) ++ ys) (scaled_signal cp n (drop 48 symbols))

    pub sized :
        (n : ℕ) (symbols : List A)
        → All (λ x. length x ≡ 64) (map (map scale) (sent_symbols ifft null pilots n symbols))
    unfolding sent_symbols
    sized zero symbols = tt
    sized (suc n) symbols =
        let col = column null pilots (take 48 symbols) in
        (
          length-map (ifft col) scale ∙ same col ∙ length-column null pilots (take 48 symbols),
          sized n (drop 48 symbols),
        )

    pub counted :
        (n : ℕ) (symbols : List A)
        → length (map (map scale) (sent_symbols ifft null pilots n symbols)) ≡ n
    unfolding sent_symbols
    counted zero symbols = refl
    counted (suc n) symbols = ap suc (counted n (drop 48 symbols))

  -- The receiver on a signal with the LTS of a symbol and then the symbols of the data.
  module _ (s : OfdmParams) (pre symbol post : List A) (syms : List (List A))
      (whole : s.num_sc ≡ 64) (c : s.data_cp_len ≤ 64) (low : 1 ≤ s.fft_offset)
      (high : s.fft_offset ≤ s.data_cp_len + 1) (inside : s.fft_offset ≤ 33)
      (h : length symbol ≡ 64) (hs : All (λ x. length x ≡ 64) syms) (lts_len : s.lts_syms_len ≡ 160)
      (data_len : s.payload_len ≡ length (prefixed s.data_cp_len syms))
      (count : s.n_ofdm_syms ≡ length syms) where
    abbrev received : List A
    received = pre ++ (affix_cp 32 symbol 2 ++ (prefixed s.data_cp_len syms ++ post))

    lts_found : slice (length pre) 160 received ≡ affix_cp 32 symbol 2
    lts_found =
        ap (take 160) (
          drop-append pre (affix_cp 32 symbol 2 ++ (prefixed s.data_cp_len syms ++ post))
            (length pre) refl)
        ∙ take-append (affix_cp 32 symbol 2) (prefixed s.data_cp_len syms ++ post) 160
            (sym (length-affix_cp symbol h))

    data_found : slice (length pre + 160) s.payload_len received ≡ prefixed s.data_cp_len syms
    data_found =
        let sig = prefixed s.data_cp_len syms in
        ap (take s.payload_len) (
          drop-after (length pre + 160) 160 pre (affix_cp 32 symbol 2 ++ (sig ++ post)) refl
          ∙ drop-append (affix_cp 32 symbol 2) (sig ++ post) 160 (sym (length-affix_cp symbol h)))
        ∙ take-append sig post s.payload_len data_len

    length-received : length pre + 160 + s.payload_len ≤ length received
    length-received = omega (
      arith,
      length-append pre (affix_cp 32 symbol 2 ++ (prefixed s.data_cp_len syms ++ post)),
      length-append (affix_cp 32 symbol 2) (prefixed s.data_cp_len syms ++ post),
      length-append (prefixed s.data_cp_len syms) post,
      length-affix_cp symbol h,
      data_len,
    )

    abbrev turned : List A → List A
    turned = rotated (65 - s.fft_offset)

    payload-windows :
        payload s received (turned symbol) (turned symbol) (length pre + 160)
        ≡ windows (turned symbol) (turned symbol) (map turned syms)
    unfolding payload
    payload-windows =
        let in_time : ltb (length received) (length pre + 160 + s.payload_len - 1) ≡ false =
          ground (arith, length-received) in
        let size = length-prefixed s.data_cp_len syms c hs in
        let full : (length (prefixed s.data_cp_len syms)
              == (s.num_sc + s.data_cp_len) * s.n_ofdm_syms)
            ≡ true =
          rw (whole, count) (ground arith) in
        let sig = prefixed s.data_cp_len syms in
        let cut =
          ap (λ n. remove_prefixes s (columns (s.num_sc + s.data_cp_len) n sig)) count
          ∙ remove_prefixes-rotated s syms whole c low high hs in
        rw (in_time, data_found, full, cut) refl

    channel-windows :
        channel s received (length pre + 159)
        ≡ windows (turned symbol) (turned symbol) (map turned syms)
    unfolding channel
    channel-windows =
        let start : length pre + 159 + 1 - 160 ≡ length pre = omega arith in
        let next : length pre + 159 + 1 ≡ length pre + 160 = omega arith in
        let full : (length (affix_cp 32 symbol 2) == 160) ≡ true =
          ground (arith, length-affix_cp symbol h) in
        let cut = lts_windows-affix_cp s.fft_offset symbol h low inside in
        rw (lts_len, start, lts_found, full, cut, next) payload-windows

    -- The estimate of two equal windows turns no sample.
    pub animate-windows :
        {E : Type 0} (zero_offset : E) (estimate : List A → List A → E)
        → (derotate : E → List A → List A) → ((w xs : List A) → derotate (estimate w w) xs ≡ xs)
        → 1 ≤ length pre
        → animate zero_offset estimate derotate s received (some (length pre + 159))
          ≡ windows (turned symbol) (turned symbol) (map turned syms)
    unfolding animate cfo_correction
    animate-windows zero_offset estimate derotate steady some_pre =
        let start : length pre + 159 + 1 - 160 ≡ length pre = omega arith in
        let nonzero : (length pre + 159 == 0) ≡ false = ground arith in
        let late : ltb (length pre + 159) 160 ≡ false = ground arith in
        let full : (length (affix_cp 32 symbol 2) == 160) ≡ true =
          ground (arith, length-affix_cp symbol h) in
        let cut = lts_windows-affix_cp s.fft_offset symbol h low inside in
        let straight = steady (turned symbol) received in
        rw (nonzero, lts_len, late, start, lts_found, full, cut, straight) channel-windows
