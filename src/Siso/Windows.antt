-- ===== src/Siso/Windows.antt =====
-- PYTHON/DEMOS/SISO_OFDM.py: the receiver cuts the sent symbols out of the signal, all of them turned by
-- the same number of samples, so that the channel that the LTS shows is the one that the data saw.
use houdini_lab.Siso.Picked.{length-add_cp, pick_range-slice, slice-add_cp}
use houdini_lab.Siso.Receiver.{remove_prefixes, columns, OfdmParams, lts_windows, pick_range, slice}
use houdini_lab.Common.{
  ℕ, List, ◌∷◌, ◌≤◌, map, length, ◌++◌, All, ◌≡◌, [], ◌+◌, length-map, arith, ◌*◌, map-append,
  length-append, some, drop, ◌-◌, ◌∙◌, length-drop, take-append, ap, drop-append, refl, sym,
  map-drop,
}
use houdini_lab.Ofdm.Symbols.{add_cp}
use houdini_lab.Sequence.Layout.{rotated, affix_cp-rotated}
use houdini_lab.Sequence.Prefix.{affix_cp, repeat}

module _ {A : Type 0} where
  -- The symbols, each with its prefix.
  abbrev pub prefixed : ℕ → List (List A) → List A
  prefixed cp [] = []
  prefixed cp (x ∷ xs) = add_cp cp x ++ prefixed cp xs

  pub length-prefixed :
      (cp : ℕ) (syms : List (List A))
      → cp ≤ 64
      → All (λ x. length x ≡ 64) syms
      → length (prefixed cp syms) ≡ (64 + cp) * length syms
  length-prefixed cp [] c h = grind arith
  length-prefixed cp (x ∷ xs) c (h, hs) =
      let one = length-add_cp cp x (omega arith) in
      let more = length-prefixed cp xs c hs in
      grind (arith, length-append (add_cp cp x) (prefixed cp xs), one, more)

  pub map-add_cp :
      {B : Type 0} (f : A → B) (cp : ℕ) (x : List A) → map f (add_cp cp x) ≡ add_cp cp (map f x)
  unfolding add_cp
  map-add_cp f cp x = rw (length-map x f) (
      map-append f (drop (length x - cp) x) x
      ∙ ap (λ ys. ys ++ map f x) (map-drop f (length x - cp) x))

  pub map-affix_cp :
      (f : A → A) (sym : List A)
      → length sym ≡ 64
      → map f (affix_cp 32 sym 2) ≡ affix_cp 32 (map f sym) 2
  unfolding affix_cp repeat
  map-affix_cp f sym h =
      rw (length-map sym f, h)
        (map-append f (drop 32 sym) (sym ++ (sym ++ []))
          ∙ ap (λ ys. ys ++ map f (sym ++ (sym ++ []))) (map-drop f 32 sym)
          ∙ ap (λ ys. drop 32 (map f sym) ++ ys)
              (map-append f sym (sym ++ []) ∙ ap (λ ys. map f sym ++ ys) (map-append f sym [])))

  pub length-affix_cp : (sym : List A) → length sym ≡ 64 → length (affix_cp 32 sym 2) ≡ 160
  unfolding affix_cp repeat
  length-affix_cp sym h = rw h (
      omega (
        arith,
        length-append (drop 32 sym) (sym ++ (sym ++ [])),
        length-append sym (sym ++ []),
        length-append sym [],
        length-drop 32 sym,
        h,
      ))

  pub lts_windows-affix_cp :
      (off : ℕ) (symbol : List A)
      → length symbol ≡ 64
      → 1 ≤ off
      → off ≤ 33
      → lts_windows off (affix_cp 32 symbol 2)
        ≡ some (rotated (65 - off) symbol, rotated (65 - off) symbol)
  lts_windows-affix_cp off symbol h low high =
      let (early, late) = affix_cp-rotated 32 symbol (omega arith) in
      let size = length-affix_cp symbol h in
      let one : pick_range (affix_cp 32 symbol 2) off 64 33 ≡ some (rotated (65 - off) symbol) =
        pick_range-slice 64 off 33 (33 - off) (affix_cp 32 symbol 2) (omega arith) (omega arith)
        ∙ ap some (
            ap (λ n. slice (33 - off) n (affix_cp 32 symbol 2)) (sym h)
            ∙ early (33 - off) (omega arith)
            ∙ ap (λ i. rotated i symbol) (omega arith)) in
      let two : pick_range (affix_cp 32 symbol 2) off 64 97 ≡ some (rotated (65 - off) symbol) =
        pick_range-slice 64 off 97 (97 - off) (affix_cp 32 symbol 2) (omega arith) (omega arith)
        ∙ ap some (
            ap (λ n. slice (97 - off) n (affix_cp 32 symbol 2)) (sym h)
            ∙ ap (λ i. slice i (length symbol) (affix_cp 32 symbol 2)) (omega arith)
            ∙ late (65 - off) (omega arith)) in
      rw (one, two) refl

  symbol-rotated :
      (cp off : ℕ) (x : List A)
      → length x ≡ 64
      → cp ≤ 64
      → 1 ≤ off
      → off ≤ cp + 1
      → pick_range (add_cp cp x) off 64 (cp + 1) ≡ some (rotated (65 - off) x)
  symbol-rotated cp off x h c low high =
      pick_range-slice 64 off (cp + 1) (cp + 1 - off) (add_cp cp x) (omega arith)
        (omega (arith, length-add_cp cp x (omega arith)))
      ∙ ap some (
          ap (λ n. slice (cp + 1 - off) n (add_cp cp x)) (sym h)
          ∙ slice-add_cp cp (cp + 1 - off) x (omega arith) (omega arith)
          ∙ ap (λ i. rotated i x) (omega arith))

  pub remove_prefixes-rotated :
      (s : OfdmParams) (syms : List (List A))
      → s.num_sc ≡ 64
      → s.data_cp_len ≤ 64
      → 1 ≤ s.fft_offset
      → s.fft_offset ≤ s.data_cp_len + 1
      → All (λ x. length x ≡ 64) syms
      → remove_prefixes s
          (columns (s.num_sc + s.data_cp_len) (length syms) (prefixed s.data_cp_len syms))
        ≡ some (map (rotated (65 - s.fft_offset)) syms)
  unfolding remove_prefixes columns
  remove_prefixes-rotated s [] n c low high h = refl
  remove_prefixes-rotated s (x ∷ xs) n c low high (h, hs) =
      let cp = s.data_cp_len in
      let size = length-add_cp cp x (omega arith) in
      let first = take-append (add_cp cp x) (prefixed cp xs) (s.num_sc + cp) (omega arith) in
      let others = drop-append (add_cp cp x) (prefixed cp xs) (s.num_sc + cp) (omega arith) in
      let one : pick_range (add_cp cp x) s.fft_offset s.num_sc (cp + 1)
          ≡ some (rotated (65 - s.fft_offset) x) =
        rw n (symbol-rotated cp s.fft_offset x h c low high) in
      let rest = remove_prefixes-rotated s xs n c low high hs in rw (first, others, one, rest) refl
