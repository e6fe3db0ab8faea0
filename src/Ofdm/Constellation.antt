-- ===== src/Ofdm/Constellation.antt =====
-- PYTHON/IrisUtils/ofdmtxrx.py: the modulators and the demodulators. A constellation's points are
-- in thousandths of its unit, 1/sqrt(2), 1/sqrt(10) or 1/sqrt(43); so are the samples that are
-- compared with the multiples of that unit.
use houdini_lab.Common.{
  ℕ, ◌+◌, ◌*◌, ◌/◌, ◌%◌, Bool, ◌&&◌, Option, none, some, List, [], ◌∷◌, ltb, ◌==◌, if◌then◌else◌,
  get_elem?,
}
use houdini_lab.Common.Options.{◌>>=◌}
use houdini_lab.Common.Int.{ℤ, pos, negsuc, ltb_ℤ, abs}

pub record Iq : Type 0 where
  pub re : ℤ
  pub im : ℤ

abbrev pub level_2 : List ℤ
level_2 = negsuc 999 ∷ pos 1000 ∷ []

abbrev pub level_4 : List ℤ
level_4 = negsuc 2999 ∷ negsuc 999 ∷ pos 3000 ∷ pos 1000 ∷ []

abbrev pub level_8 : List ℤ
level_8 =
    negsuc 6999
    ∷ negsuc 4999
    ∷ negsuc 999
    ∷ negsuc 2999
    ∷ pos 7000
    ∷ pos 5000
    ∷ pos 1000
    ∷ pos 3000
    ∷ []

unfoldable pub bpsk_mod : ℕ → Option Iq
bpsk_mod val = do a ← get_elem? level_2 val; some (record { re = a; im = pos 0 })

unfoldable pub qpsk_mod : ℕ → Option Iq
qpsk_mod val = do
  a ← get_elem? level_2 (val / 2)
  b ← get_elem? level_2 (val % 2)
  some (record { re = a; im = b })

unfoldable pub qam16_mod : ℕ → Option Iq
qam16_mod val = do
  a ← get_elem? level_4 (val / 4)
  b ← get_elem? level_4 (val % 4)
  some (record { re = a; im = b })

unfoldable pub qam64_mod : ℕ → Option Iq
qam64_mod val = do
  a ← get_elem? level_8 (val / 8)
  b ← get_elem? level_8 (val % 8)
  some (record { re = a; im = b })

-- A comparison as a number.
abbrev pub bit : Bool → ℕ
bit x = if x then 1 else 0

abbrev pub above_0 : ℤ → Bool
above_0 r = ltb_ℤ (pos 0) r

abbrev pub within : ℕ → ℤ → Bool
within thresh r = ltb (abs r) thresh

abbrev pub between : ℕ → ℕ → ℤ → Bool
between low high r = ltb (abs r) high && ltb low (abs r)

unfoldable pub bpsk_dem : Iq → ℕ
bpsk_dem iq = bit (above_0 iq.re)

unfoldable pub qpsk_dem : Iq → ℕ
qpsk_dem iq = 2 * bit (above_0 iq.re) + 1 * bit (above_0 iq.im)

unfoldable pub qam16_dem : Iq → ℕ
qam16_dem iq =
    8 * bit (above_0 iq.re)
    + 4 * bit (within 2000 iq.re)
    + 2 * bit (above_0 iq.im)
    + 1 * bit (within 2000 iq.im)

unfoldable pub qam64_dem : Iq → ℕ
qam64_dem iq =
    32 * bit (above_0 iq.re)
    + 16 * bit (within 4000 iq.re)
    + 8 * bit (between 2000 6000 iq.re)
    + 4 * bit (above_0 iq.im)
    + 2 * bit (within 4000 iq.im)
    + 1 * bit (between 2000 6000 iq.im)

unfoldable pub mod_symbol : ℕ → ℕ → Option Iq
mod_symbol mod_order val =
    if mod_order == 2
    then bpsk_mod val
    else if mod_order == 4
    then qpsk_mod val
    else if mod_order == 16
    then qam16_mod val
    else if mod_order == 64
    then qam64_mod val
    else none

unfoldable pub dem_symbol : ℕ → Iq → Option ℕ
dem_symbol mod_order iq =
    if mod_order == 2
    then some (bpsk_dem iq)
    else if mod_order == 4
    then some (qpsk_dem iq)
    else if mod_order == 16
    then some (qam16_dem iq)
    else if mod_order == 64
    then some (qam64_dem iq)
    else none

unfoldable pub modulation : List ℕ → ℕ → Option (List Iq)
modulation [] mod_order = some []
modulation (val ∷ vals) mod_order = do
  iq ← mod_symbol mod_order val
  iqs ← modulation vals mod_order
  some (iq ∷ iqs)

unfoldable pub demodulation : List Iq → ℕ → Option (List ℕ)
demodulation [] mod_order = some []
demodulation (iq ∷ iqs) mod_order = do
  val ← dem_symbol mod_order iq
  vals ← demodulation iqs mod_order
  some (val ∷ vals)
