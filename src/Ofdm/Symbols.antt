-- ===== src/Ofdm/Symbols.antt =====
-- PYTHON/IrisUtils/ofdmtxrx.py, generate_data: the subcarriers, the cyclic prefix and the order of
-- the samples. The values of the samples are of any type, and numpy's IFFT is a parameter.
use houdini_lab.Common.{
  ℕ, zero, suc, ◌*◌, ◌-◌, Option, none, some, List, [], ◌∷◌, ◌++◌, map, ◌==◌, if◌then◌else◌, length,
  set, take, drop, replicate, get_or,
}
use houdini_lab.Common.Options.{◌>>=◌}
use houdini_lab.Ofdm.Constellation.{Iq, modulation}

abbrev pub num_subcarriers : ℕ
num_subcarriers = 64

-- `range(lo, lo + n)`
abbrev count_from : ℕ → ℕ → List ℕ
count_from zero lo = []
count_from (suc n) lo = lo ∷ count_from n (suc lo)

unfoldable pub data_subcarriers : List ℕ
data_subcarriers =
    count_from 6 1
    ++ count_from 13 8
    ++ count_from 5 22
    ++ count_from 5 38
    ++ count_from 13 44
    ++ count_from 6 58

unfoldable pub pilot_subcarriers : List ℕ
pilot_subcarriers = 7 ∷ 21 ∷ 43 ∷ 57 ∷ []

module _ {A : Type 0} where
  -- `xs[indices] = values`
  unfoldable pub place : List ℕ → List A → List A → List A
  place [] values xs = xs
  place (i ∷ indices) [] xs = xs
  place (i ∷ indices) (v ∷ values) xs = place indices values (set xs i v)

  -- `xs[indices]`
  unfoldable pub gather : A → List ℕ → List A → List A
  gather null [] xs = []
  gather null (i ∷ indices) xs = get_or xs i null ∷ gather null indices xs

  -- A column of the matrix: zeros, then the pilots, then the data.
  unfoldable pub column : A → List A → List A → List A
  column null pilots symbols =
      place data_subcarriers symbols
        (place pilot_subcarriers pilots (replicate num_subcarriers null))

  -- The last samples come first, all of them if there are no more than the prefix has.
  unfoldable pub add_cp : ℕ → List A → List A
  add_cp cp_length signal = drop (length signal - cp_length) signal ++ signal

  -- The columns of the data, one for each OFDM symbol, and the samples column by column.
  unfoldable pub build_signal : (List A → List A) → A → List A → ℕ → ℕ → List A → List A
  build_signal ifft null pilots cp_length zero symbols = []
  build_signal ifft null pilots cp_length (suc n_ofdm_syms) symbols =
      add_cp cp_length (ifft (column null pilots (take 48 symbols)))
      ++ build_signal ifft null pilots cp_length n_ofdm_syms (drop 48 symbols)

  -- The data symbols are given. A reshape of any other number of them raises an error.
  unfoldable pub generate_data :
      (Iq → A) → (List A → List A) → A → List A → ℕ → ℕ → ℕ → List ℕ → Option (List A)
  generate_data value ifft null pilots n_ofdm_syms mod_order cp_length data_i =
      modulation data_i mod_order >>= λ symbols.
      if length symbols == 48 * n_ofdm_syms
      then some (build_signal ifft null pilots cp_length n_ofdm_syms (map value symbols))
      else none
