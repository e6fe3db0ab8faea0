-- ===== src/Ofdm/Received.antt =====
-- What generate_data of PYTHON/IrisUtils/ofdmtxrx.py sends can be read back.
use houdini_lab.Common.{
  ℕ, zero, suc, ◌+◌, ◌*◌, ◌-◌, ◌<◌, ◌≤◌, ◌≡◌, ◌≢◌, refl, sym, ap, ◌∙◌, Bool, true, ◌&&◌, not, List,
  [], ◌∷◌, ◌++◌, arith, ltb, ◌==◌, length, set, take, drop, replicate, get_or, length-set,
  length-drop, length-append, length-replicate, drop-append, take-append, append-take-drop,
  length-take, append_assoc,
}
use houdini_lab.Ofdm.Symbols.{
  data_subcarriers, pilot_subcarriers, place, gather, column, add_cp, build_signal,
}

abbrev absent : ℕ → List ℕ → Bool
absent i [] = true
absent i (j ∷ js) = not (i == j) && absent i js

abbrev distinct_below : ℕ → List ℕ → Bool
distinct_below n [] = true
distinct_below n (i ∷ is) = ltb i n && (absent i is && distinct_below n is)

data_distinct : distinct_below 64 data_subcarriers ≡ true
unfolding data_subcarriers
data_distinct = refl

module _ {A : Type 0} where
  get_or-set_self : (xs : List A) (i : ℕ) (v d : A) → i < length xs → get_or (set xs i v) i d ≡ v
  get_or-set_self [] i v d h = absurd (omega arith)
  get_or-set_self (x ∷ xs) zero v d h = refl
  get_or-set_self (x ∷ xs) (suc i) v d h = get_or-set_self xs i v d (omega arith)

  get_or-set_ne :
      (xs : List A) (i j : ℕ) (v d : A) → i ≢ j → get_or (set xs i v) j d ≡ get_or xs j d
  get_or-set_ne [] i j v d h = refl
  get_or-set_ne (x ∷ xs) zero zero v d h = absurd (h refl)
  get_or-set_ne (x ∷ xs) zero (suc j) v d h = refl
  get_or-set_ne (x ∷ xs) (suc i) zero v d h = refl
  get_or-set_ne (x ∷ xs) (suc i) (suc j) v d h = get_or-set_ne xs i j v d (λ e. h (ap suc e))

  length-place : (is : List ℕ) (vs xs : List A) → length (place is vs xs) ≡ length xs
  unfolding place
  length-place [] vs xs = refl
  length-place (i ∷ is) [] xs = refl
  length-place (i ∷ is) (v ∷ vs) xs = length-place is vs (set xs i v) ∙ length-set xs i v

  get_or-place-absent :
      (is : List ℕ) (vs xs : List A) (i : ℕ) (d : A)
      → absent i is ≡ true
      → get_or (place is vs xs) i d ≡ get_or xs i d
  unfolding place
  get_or-place-absent [] vs xs i d h = refl
  get_or-place-absent (j ∷ is) [] xs i d h = refl
  get_or-place-absent (j ∷ is) (v ∷ vs) xs i d h =
      get_or-place-absent is vs (set xs j v) i d (ground arith)
      ∙ get_or-set_ne xs j i v d (λ e. ground arith)

  gather-place :
      (is : List ℕ) (vs xs : List A) (d : A)
      → distinct_below (length xs) is ≡ true
      → length is ≡ length vs
      → gather d is (place is vs xs) ≡ vs
  unfolding gather place
  gather-place [] [] xs d h e = refl
  gather-place [] (v ∷ vs) xs d h e = absurd (omega arith)
  gather-place (i ∷ is) [] xs d h e = absurd (omega arith)
  gather-place (i ∷ is) (v ∷ vs) xs d h e =
      let first : ltb i (length xs) ≡ true = ground arith in
      let apart : absent i is ≡ true = ground arith in
      let rest : distinct_below (length xs) is ≡ true = ground arith in
      ap (λ x. x ∷ gather d is (place is vs (set xs i v)))
        (get_or-place-absent is vs (set xs i v) i d apart ∙ get_or-set_self xs i v d (ground arith))
      ∙ ap (λ ys. v ∷ ys)
          (gather-place is vs (set xs i v) d
            (ap (λ n. distinct_below n is) (length-set xs i v) ∙ rest) (omega arith))

  column-length :
      (null : A) (pilots : List A)
      → length (place pilot_subcarriers pilots (replicate 64 null)) ≡ 64
  column-length null pilots =
      length-place pilot_subcarriers pilots (replicate 64 null) ∙ length-replicate 64 null

  -- The data subcarriers of a column hold the data.
  gather-column :
      (null : A) (pilots symbols : List A)
      → length symbols ≡ 48
      → gather null data_subcarriers (column null pilots symbols) ≡ symbols
  unfolding column data_subcarriers
  gather-column null pilots symbols h =
      gather-place data_subcarriers symbols (place pilot_subcarriers pilots (replicate 64 null))
        null
        (ap (λ n. distinct_below n data_subcarriers) (column-length null pilots) ∙ data_distinct)
        (sym h)

  pub length-column :
      (null : A) (pilots symbols : List A) → length (column null pilots symbols) ≡ 64
  unfolding column
  length-column null pilots symbols =
      length-place data_subcarriers symbols _ ∙ column-length null pilots

  -- What a receiver does: it leaves out each prefix and takes the data subcarriers.
  unfoldable pub receive : (List A → List A) → A → ℕ → ℕ → List A → List A
  receive fft null cp_length zero signal = []
  receive fft null cp_length (suc n_ofdm_syms) signal =
      gather null data_subcarriers (fft (take 64 (drop cp_length signal)))
      ++ receive fft null cp_length n_ofdm_syms (drop (cp_length + 64) signal)

  -- One OFDM symbol, before the rest of the signal.
  symbol_taken :
      (cp_length : ℕ) (signal rest : List A)
      → length signal ≡ 64
      → cp_length ≤ 64
      → (take 64 (drop cp_length (add_cp cp_length signal ++ rest)) ≡ signal)
        × (drop (cp_length + 64) (add_cp cp_length signal ++ rest) ≡ rest)
  unfolding add_cp
  symbol_taken cp_length signal rest h le =
      let prefix : List A = drop (length signal - cp_length) signal in
      let short : cp_length ≡ length prefix =
        omega (arith, length-drop (length signal - cp_length) signal) in
      (
        ap (take 64) (
              ap (drop cp_length) (append_assoc prefix signal rest)
              ∙ drop-append prefix (signal ++ rest) cp_length short)
            ∙ take-append signal rest 64 (sym h),
        drop-append (prefix ++ signal) rest (cp_length + 64)
            (omega (arith, length-append prefix signal)),
      )

  -- With transforms that undo each other and keep the length, and a prefix of at most 64 samples,
  -- the receiver gets back all the data of all the OFDM symbols, in order.
  pub receive-build_signal :
      (ifft fft : List A → List A)
      → ((xs : List A) → fft (ifft xs) ≡ xs)
      → ((xs : List A) → length (ifft xs) ≡ length xs)
      → (null : A) (pilots : List A) (cp_length n_ofdm_syms : ℕ) (symbols : List A) → cp_length ≤ 64
      → length symbols ≡ 48 * n_ofdm_syms
      → receive fft null cp_length n_ofdm_syms
          (build_signal ifft null pilots cp_length n_ofdm_syms symbols)
        ≡ symbols
  unfolding receive build_signal
  receive-build_signal ifft fft undo same null pilots cp_length zero [] le h = refl
  receive-build_signal ifft fft undo same null pilots cp_length zero (x ∷ symbols) le h =
      absurd (omega arith)
  receive-build_signal ifft fft undo same null pilots cp_length (suc n) symbols le h =
      let col : List A = column null pilots (take 48 symbols) in
      let rest : List A = build_signal ifft null pilots cp_length n (drop 48 symbols) in
      let (taken, dropped) =
        symbol_taken cp_length (ifft col) rest
          (same col ∙ length-column null pilots (take 48 symbols)) le in
      ap
        (λ s.
          gather null data_subcarriers (fft s)
          ++ receive fft null cp_length n
              (drop (cp_length + 64) (add_cp cp_length (ifft col) ++ rest)))
        taken
      ∙ ap (λ r. gather null data_subcarriers (fft (ifft col)) ++ receive fft null cp_length n r)
          dropped
      ∙ ap (λ c. gather null data_subcarriers c ++ receive fft null cp_length n rest) (undo col)
      ∙ ap (λ g. g ++ receive fft null cp_length n rest)
          (gather-column null pilots (take 48 symbols) (length-take 48 symbols (omega arith)))
      ∙ ap (λ r. take 48 symbols ++ r)
          (receive-build_signal ifft fft undo same null pilots cp_length n (drop 48 symbols) le
            (omega (arith, length-drop 48 symbols)))
      ∙ append-take-drop 48 symbols
