-- ===== src/Ofdm/Link.antt =====
-- From the data of generate_data to demodulation, PYTHON/IrisUtils/ofdmtxrx.py.
use houdini_lab.Common.{
  ℕ, ◌*◌, ◌≤◌, ◌≡◌, refl, ap, ◌∙◌, true, some, List, [], ◌∷◌, map, arith, ◌==◌, length, length-map,
}
use houdini_lab.Common.Options.{◌>>=◌}
use houdini_lab.Ofdm.Constellation.{Iq, demodulation}
use houdini_lab.Ofdm.Symbols.{build_signal, generate_data}
use houdini_lab.Ofdm.Margin.{Order, AllBelow, AllNear, modulation-some, demodulation-AllNear}
use houdini_lab.Ofdm.Received.{receive, receive-build_signal}

AllNear-refl : (sent : List Iq) → AllNear sent sent
AllNear-refl [] = tt
AllNear-refl (iq ∷ iqs) =
    (((omega arith, omega arith), (omega arith, omega arith)), AllNear-refl iqs)

map-undo :
    {A : Type 0} (value : Iq → A) (point : A → Iq)
    → ((iq : Iq) → point (value iq) ≡ iq)
    → (iqs : List Iq) → map point (map value iqs) ≡ iqs
map-undo value point undo [] = refl
map-undo value point undo (iq ∷ iqs) =
    ap (λ x. x ∷ map point (map value iqs)) (undo iq)
    ∙ ap (λ xs. iq ∷ xs) (map-undo value point undo iqs)

module _ {A : Type 0} (value : Iq → A) (point : A → Iq) (ifft fft : List A → List A) where
  -- For 48 symbols of a supported order for each OFDM symbol, the signal exists; and where the
  -- transforms undo each other and keep the length, a receiver without noise demodulates it to the
  -- same data.
  pub generate_data-demodulation :
      ((iq : Iq) → point (value iq) ≡ iq)
      → ((xs : List A) → fft (ifft xs) ≡ xs)
      → ((xs : List A) → length (ifft xs) ≡ length xs)
      → {m : ℕ} (o : Order m) (null : A) (pilots : List A) (cp_length n_ofdm_syms : ℕ)
        (data_i : List ℕ)
      → cp_length ≤ 64
      → length data_i ≡ 48 * n_ofdm_syms
      → AllBelow m data_i
      → (signal : List A) × (generate_data value ifft null pilots n_ofdm_syms m cp_length data_i
          ≡ some signal)
        × (demodulation (map point (receive fft null cp_length n_ofdm_syms signal)) m ≡ some data_i)
  unfolding generate_data
  generate_data-demodulation exact undo same {m = m} o null pilots cp_length n data_i le len below =
      let (sent, e, same_length) = modulation-some o data_i below in
      let whole : length sent ≡ 48 * n = same_length ∙ len in
      let fits : (length sent == 48 * n) ≡ true = ground arith in
      let received =
        receive-build_signal ifft fft undo same null pilots cp_length n (map value sent) le
          (length-map sent value ∙ whole) in
      (
        build_signal ifft null pilots cp_length n (map value sent),
        rw (e, ◌>>=◌, fits),
        ap (λ xs. demodulation (map point xs) m) received
            ∙ ap (λ xs. demodulation xs m) (map-undo value point exact sent)
            ∙ demodulation-AllNear o data_i sent sent e (AllNear-refl sent),
      )
