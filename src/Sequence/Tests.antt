-- ===== src/Sequence/Tests.antt =====
-- Runs of the training sequences, on subcarriers that are numbers and with `ifft` the identity.
use houdini_lab.Common.Int.{ℤ}
use houdini_lab.Sequence.Prefix.{affix_cp, lts, repeat, upsampled}
use houdini_lab.Sequence.Zadoff.{zc_prime, fft_length, choose_prime, double_up, primes}
use houdini_lab.Common.{ℕ, length, List, Option, ◌+◌, ◌≡◌, ◌∷◌, refl, arith, [], some, none}
use houdini_lab.Sequence.Prime.{zc_prime-Chosen, IsLargest, IsIn}

abbrev phase : ℕ → ℕ → ℕ
phase a m = a + m

zc_prime_lem : zc_prime 336 ≡ 331
unfolding zc_prime choose_prime
zc_prime_lem = refl

fft_length_lem : fft_length 336 ≡ 512
unfolding fft_length double_up
fft_length_lem = refl

zc_prime-Chosen_example :
    (¬ IsIn 336 primes → IsLargest 336 primes (zc_prime 336))
    × (IsIn 336 primes → zc_prime 336 ≡ 2039)
zc_prime-Chosen_example = zc_prime-Chosen 336 (omega arith) (omega arith)

-- A length that is a prime itself.
zc_prime_own : zc_prime 139 ≡ 2039
unfolding zc_prime choose_prime
zc_prime_own = refl

abbrev symbol : List ℕ
symbol = 1 ∷ 2 ∷ 3 ∷ 4 ∷ []

affix_cp_lem : affix_cp 2 symbol 2 ≡ 3 ∷ 4 ∷ 1 ∷ 2 ∷ 3 ∷ 4 ∷ 1 ∷ 2 ∷ 3 ∷ 4 ∷ []
unfolding affix_cp repeat
affix_cp_lem = refl

abbrev size_of : Option (List ℤ) → ℕ
size_of none = 0
size_of (some xs) = length xs

lts_lem : size_of (lts (λ x. x) 32 1) ≡ 160
unfolding lts upsampled affix_cp repeat
lts_lem = refl
