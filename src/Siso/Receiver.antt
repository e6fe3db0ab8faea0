-- ===== src/Siso/Receiver.antt =====
-- PYTHON/DEMOS/SISO_OFDM.py, animate, and cfo_correction of PYTHON/IrisUtils/ofdmtxrx.py: where the
-- receiver cuts its samples, those of the first chain without their mean. The values of the samples are
-- of any type; the estimate of the frequency offset from two windows and the correction by it (numpy)
-- are parameters.
use houdini_lab.Common.{
  ℕ, List, Option, take, [], ◌+◌, if◌then◌else◌, some, drop, suc, ◌-◌, leb, ◌∷◌, ltb, length, ◌==◌,
  get_elem?, zero, ◌*◌, none,
}
use houdini_lab.Common.Options.{◌>>=◌}

-- The lengths of the data and of the LTS are those of tx_struct.
pub record OfdmParams : Type 0 where
  pub n_ofdm_syms : ℕ
  pub data_cp_len : ℕ
  pub num_sc : ℕ
  pub fft_offset : ℕ
  pub payload_len : ℕ
  pub lts_syms_len : ℕ

pub data Reception (A : Type 0) : Type 0 where
  no_lts : Reception A
  too_early : Reception A
  incorrect_start : Reception A
  too_late : Reception A
  index_error : Reception A
  windows : List A → List A → List (List A) → Reception A

module _ {A : Type 0} where
  -- `xs[p - fft_offset]`, where Python counts a negative index from the end
  unfoldable pub pick : List A → ℕ → ℕ → Option A
  pick xs fft_offset p =
      if leb fft_offset p
      then get_elem? xs (p - fft_offset)
      else if leb fft_offset (p + length xs)
      then get_elem? xs ((p + length xs) - fft_offset)
      else none

  -- `xs[-fft_offset + np.array(range(p, p + n))]`
  unfoldable pub pick_range : List A → ℕ → ℕ → ℕ → Option (List A)
  pick_range xs fft_offset zero p = some []
  pick_range xs fft_offset (suc n) p = do
    x ← pick xs fft_offset p
    rest ← pick_range xs fft_offset n (suc p)
    some (x ∷ rest)

  abbrev pub slice : ℕ → ℕ → List A → List A
  slice from len xs = take len (drop from xs)

  -- The two windows of an LTS of 160 samples; the first one starts 64 samples before the second.
  abbrev pub lts_windows : ℕ → List A → Option (List A × List A)
  lts_windows fft_offset lts = do
    lts_1 ← pick_range lts fft_offset 64 33
    lts_2 ← pick_range lts fft_offset 64 97
    some (lts_1, lts_2)

  -- `np.reshape(payload_samples, (rows, n), order="F")`, as the list of its columns
  unfoldable pub columns : ℕ → ℕ → List A → List (List A)
  columns rows zero samples = []
  columns rows (suc n) samples = take rows samples ∷ columns rows n (drop rows samples)

  unfoldable pub remove_prefixes : OfdmParams → List (List A) → Option (List (List A))
  remove_prefixes s [] = some []
  remove_prefixes s (c ∷ cs) = do
    sym ← pick_range c s.fft_offset s.num_sc (s.data_cp_len + 1)
    rest ← remove_prefixes s cs
    some (sym ∷ rest)

  unfoldable pub payload : OfdmParams → List A → List A → List A → ℕ → Reception A
  payload s rx_signal_cfo lts_1 lts_2 payload_start =
      let rows = s.num_sc + s.data_cp_len in
      let samples = slice payload_start s.payload_len rx_signal_cfo in
      let mat = remove_prefixes s (columns rows s.n_ofdm_syms samples) in
      if ltb (length rx_signal_cfo) (payload_start + s.payload_len - 1)
      then too_late
      else if length samples == rows * s.n_ofdm_syms
      then elim mat [ none ↦ index_error | some symbols ↦ windows lts_1 lts_2 symbols ]
      else incorrect_start

  unfoldable pub channel : OfdmParams → List A → ℕ → Reception A
  channel s rx_signal_cfo a =
      let lts = slice (a + 1 - s.lts_syms_len) s.lts_syms_len rx_signal_cfo in
      let cut = lts_windows s.fft_offset lts in
      if length lts == 160
      then elim cut [
        | none ↦ index_error
        | some (lts_1, lts_2) ↦ payload s rx_signal_cfo lts_1 lts_2 (a + 1)
      ]
      else incorrect_start

  module _ {E : Type 0} (zero_offset : E) (estimate : List A → List A → E) where
    unfoldable pub cfo_correction : List A → ℕ → ℕ → ℕ → Option E
    cfo_correction rx_signal lts_start lts_syms_len fft_offset =
        let lts = slice lts_start lts_syms_len rx_signal in
        let found = do (lts_1, lts_2) ← lts_windows fft_offset lts; some (estimate lts_1 lts_2)
        in if length lts == 160 then found else some zero_offset

    -- The peak is the last sample of the LTS; a peak 0 is false in Python.
    unfoldable pub animate : (E → List A → List A) → OfdmParams → List A → Option ℕ → Reception A
    animate derotate s rx_signal none = no_lts
    animate derotate s rx_signal (some a) =
        let lts_start = a + 1 - s.lts_syms_len in
        let cfo = cfo_correction rx_signal lts_start s.lts_syms_len s.fft_offset in
        if a == 0 then no_lts else if ltb a s.lts_syms_len then too_early else elim cfo [
          | none ↦ index_error
          | some coarse_cfo_est ↦ channel s (derotate coarse_cfo_est rx_signal) a
        ]
