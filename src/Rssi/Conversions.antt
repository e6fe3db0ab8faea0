-- ===== src/Rssi/Conversions.antt =====
-- PYTHON/IrisUtils/type_conv.py: samples from 32-bit words, and two's complement. A part of a sample
-- is in 32768ths; an exception is none, and a word that is given is not negative.
use houdini_lab.Common.{
  ℕ, zero, suc, ◌/◌, ◌%◌, ◌^◌, ◌<◌, ◌≡◌, refl, arith, Bool, true, not, Option, none, some, List, [],
  ◌∷◌, map, ltb, ◌==◌, if◌then◌else◌,
}
use houdini_lab.Common.Int.{ℤ, pos, negsuc, sub_ℕ}
use houdini_lab.Rssi.Words.{Word, word}

-- `astype(np.int16)`
unfoldable to_int16 : ℕ → ℤ
to_int16 x = let low = x % 65536 in if ltb low 32768 then pos low else sub_ℕ low 65536

record Sample : Type 0 where
  real : ℤ
  imag : ℤ

-- `order` is whether it is 'IQ'.
unfoldable uint32tocfloat : ℕ → Bool → Sample
uint32tocfloat arr order =
    let arr_hi = to_int16 (arr / 65536) in
    let arr_lo = to_int16 (arr % 65536) in
    if order
    then record { real = arr_hi; imag = arr_lo }
    else record { real = arr_lo; imag = arr_hi }

-- A shift by nbits - 1 raises for 0 bits.
unfoldable bin_to_int : ℕ → ℕ → Option ℤ
bin_to_int val zero = none
bin_to_int val (suc n) = some (if (val / 2 ^ n) % 2 == 1 then sub_ℕ val (2 ^ suc n) else pos val)

unfoldable last_first : Word → Word → Word
last_first [] done = done
last_first (b ∷ bs) done = last_first bs (b ∷ done)

-- The bits of val under the mask; those of -(n + 1) are the complements of those of n.
unfoldable masked : ℤ → ℕ → Word
masked (pos n) nbits = word nbits n
masked (negsuc n) nbits = map not (word nbits n)

-- The characters '0' and '1', from the highest bit on; int("", 2) raises.
unfoldable int_to_bin : ℤ → ℕ → Option (List ℕ)
int_to_bin val zero = none
int_to_bin val (suc n) = some (map (λ b. if b then 49 else 48) (last_first (masked val (suc n)) []))

-- On 16 bits the two's complement is the cast to int16.
bin_to_int-to_int16 : (x : ℕ) → x < 65536 → bin_to_int x 16 ≡ some (to_int16 x)
unfolding bin_to_int to_int16
bin_to_int-to_int16 x h = ground arith

int16-inj : (x y : ℕ) → to_int16 x ≡ to_int16 y → x < 65536 → y < 65536 → x ≡ y
unfolding to_int16
int16-inj x y e h k = ground arith

-- int_to_bin of -3 on 4 bits is "1101".
int_to_bin_lem : int_to_bin (negsuc 2) 4 ≡ some (49 ∷ 49 ∷ 48 ∷ 49 ∷ [])
unfolding int_to_bin last_first masked word
int_to_bin_lem = refl

uint32tocfloat_lem : uint32tocfloat 65535 true ≡ record { real = pos 0; imag = negsuc 0 }
unfolding uint32tocfloat to_int16
uint32tocfloat_lem = refl
