-- ===== src/Rssi/Words.antt =====
-- PYTHON/IrisUtils/digital_rssi.py: the words of the registers and Python's bitwise operations. A word
-- is the list of its bits, from the lowest on; a bit past its end is 0.
use houdini_lab.Common.{
  ℕ, zero, suc, ◌+◌, ◌*◌, ◌/◌, ◌%◌, ◌≤◌, ◌≡◌, refl, Bool, false, ◌&&◌, ◌||◌, List, [], ◌∷◌, arith,
  ◌==◌, if◌then◌else◌, get_or,
}

abbrev pub Word : Type 0
Word = List Bool

-- The lowest `count` bits of a number.
unfoldable pub word : ℕ → ℕ → Word
word zero n = []
word (suc count) n = (n % 2 == 1) ∷ word count (n / 2)

unfoldable pub value : Word → ℕ
value [] = 0
value (b ∷ bs) = (if b then 1 else 0) + 2 * value bs

infixl 65 ◌<<◌
infixl 60 ◌&◌
infixl 55 ◌∣◌
unfoldable pub ◌&◌ : Word → Word → Word
[] & ms = []
(x ∷ xs) & [] = []
(x ∷ xs) & (m ∷ ms) = (x && m) ∷ (xs & ms)

unfoldable pub ◌∣◌ : Word → Word → Word
[] ∣ ms = ms
(x ∷ xs) ∣ [] = x ∷ xs
(x ∷ xs) ∣ (m ∷ ms) = (x || m) ∷ (xs ∣ ms)

unfoldable pub ◌<<◌ : Word → ℕ → Word
w << zero = w
w << suc n = false ∷ (w << n)

abbrev pub bit : Word → ℕ → Bool
bit w i = get_or w i false

-- A word under a mask is at most the mask.
pub value-& : (xs ms : Word) → value (xs & ms) ≤ value ms
unfolding value ◌&◌
value-& [] ms = omega arith
value-& (x ∷ xs) [] = omega arith
value-& (x ∷ xs) (m ∷ ms) = let e = value-& xs ms in ground arith

pub bit-& : (xs ms : Word) (i : ℕ) → bit (xs & ms) i ≡ (bit xs i && bit ms i)
unfolding ◌&◌
bit-& [] ms i = refl
bit-& (x ∷ xs) [] zero = ground arith
bit-& (x ∷ xs) [] (suc i) = ground arith
bit-& (x ∷ xs) (m ∷ ms) zero = refl
bit-& (x ∷ xs) (m ∷ ms) (suc i) = bit-& xs ms i

pub bit-∣ : (xs ms : Word) (i : ℕ) → bit (xs ∣ ms) i ≡ (bit xs i || bit ms i)
unfolding ◌∣◌
bit-∣ [] ms i = refl
bit-∣ (x ∷ xs) [] zero = ground arith
bit-∣ (x ∷ xs) [] (suc i) = ground arith
bit-∣ (x ∷ xs) (m ∷ ms) zero = refl
bit-∣ (x ∷ xs) (m ∷ ms) (suc i) = bit-∣ xs ms i
