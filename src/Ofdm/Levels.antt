-- ===== src/Ofdm/Levels.antt =====
-- The decision regions of PYTHON/IrisUtils/ofdmtxrx.py, one axis at a time.
use mathlib.Core.Path.{subst}
use houdini_lab.Common.{ℕ, zero, suc, ◌+◌, ◌*◌, ◌<◌, ◌≡◌, sym, some, arith, get_elem?}
use houdini_lab.Common.Int.{ℤ, pos, negsuc, pos_part, neg_part}
use houdini_lab.Ofdm.Constellation.{Iq, level_2, level_4, level_8, bit, above_0, within, between}

-- Closer than one unit.
abbrev pub Near : ℤ → ℤ → Type 0
Near a r =
    (pos_part a + neg_part r < pos_part r + neg_part a + 1000)
    × (pos_part r + neg_part a < pos_part a + neg_part r + 1000)

abbrev pub NearIq : Iq → Iq → Type 0
NearIq a r = Near a.re r.re × Near a.im r.im

abbrev pub bits_2 : ℤ → ℕ
bits_2 r = bit (above_0 r)

abbrev pub bits_4 : ℤ → ℕ
bits_4 r = 2 * bit (above_0 r) + bit (within 2000 r)

abbrev pub bits_8 : ℤ → ℕ
bits_8 r = 4 * bit (above_0 r) + 2 * bit (within 4000 r) + bit (between 2000 6000 r)

some-same : (x y : ℤ) → some x ≡ some y → x ≡ y
some-same x y h = cc

-- The bits of a sample near each level.
bits_2_at_0 : (r : ℤ) → Near (negsuc 999) r → bits_2 r ≡ 0
bits_2_at_0 (pos n) h = ground arith
bits_2_at_0 (negsuc n) h = ground arith

bits_2_at_1 : (r : ℤ) → Near (pos 1000) r → bits_2 r ≡ 1
bits_2_at_1 (pos n) h = ground arith
bits_2_at_1 (negsuc n) h = ground arith

bits_4_at_0 : (r : ℤ) → Near (negsuc 2999) r → bits_4 r ≡ 0
bits_4_at_0 (pos n) h = ground arith
bits_4_at_0 (negsuc n) h = ground arith

bits_4_at_1 : (r : ℤ) → Near (negsuc 999) r → bits_4 r ≡ 1
bits_4_at_1 (pos n) h = ground arith
bits_4_at_1 (negsuc n) h = ground arith

bits_4_at_2 : (r : ℤ) → Near (pos 3000) r → bits_4 r ≡ 2
bits_4_at_2 (pos n) h = ground arith
bits_4_at_2 (negsuc n) h = ground arith

bits_4_at_3 : (r : ℤ) → Near (pos 1000) r → bits_4 r ≡ 3
bits_4_at_3 (pos n) h = ground arith
bits_4_at_3 (negsuc n) h = ground arith

bits_8_at_0 : (r : ℤ) → Near (negsuc 6999) r → bits_8 r ≡ 0
bits_8_at_0 (pos n) h = ground arith
bits_8_at_0 (negsuc n) h = ground arith

bits_8_at_1 : (r : ℤ) → Near (negsuc 4999) r → bits_8 r ≡ 1
bits_8_at_1 (pos n) h = ground arith
bits_8_at_1 (negsuc n) h = ground arith

bits_8_at_2 : (r : ℤ) → Near (negsuc 999) r → bits_8 r ≡ 2
bits_8_at_2 (pos n) h = ground arith
bits_8_at_2 (negsuc n) h = ground arith

bits_8_at_3 : (r : ℤ) → Near (negsuc 2999) r → bits_8 r ≡ 3
bits_8_at_3 (pos n) h = ground arith
bits_8_at_3 (negsuc n) h = ground arith

bits_8_at_4 : (r : ℤ) → Near (pos 7000) r → bits_8 r ≡ 4
bits_8_at_4 (pos n) h = ground arith
bits_8_at_4 (negsuc n) h = ground arith

bits_8_at_5 : (r : ℤ) → Near (pos 5000) r → bits_8 r ≡ 5
bits_8_at_5 (pos n) h = ground arith
bits_8_at_5 (negsuc n) h = ground arith

bits_8_at_6 : (r : ℤ) → Near (pos 1000) r → bits_8 r ≡ 6
bits_8_at_6 (pos n) h = ground arith
bits_8_at_6 (negsuc n) h = ground arith

bits_8_at_7 : (r : ℤ) → Near (pos 3000) r → bits_8 r ≡ 7
bits_8_at_7 (pos n) h = ground arith
bits_8_at_7 (negsuc n) h = ground arith

pub bits_2-Near : (k : ℕ) (a r : ℤ) → get_elem? level_2 k ≡ some a → Near a r → bits_2 r ≡ k
bits_2-Near zero a r h n = bits_2_at_0 r (subst (λ a. Near a r) (sym (some-same _ _ h)) n)
bits_2-Near (suc zero) a r h n = bits_2_at_1 r (subst (λ a. Near a r) (sym (some-same _ _ h)) n)
bits_2-Near (suc (suc k)) a r h n = cc

pub bits_4-Near : (k : ℕ) (a r : ℤ) → get_elem? level_4 k ≡ some a → Near a r → bits_4 r ≡ k
bits_4-Near zero a r h n = bits_4_at_0 r (subst (λ a. Near a r) (sym (some-same _ _ h)) n)
bits_4-Near (suc zero) a r h n = bits_4_at_1 r (subst (λ a. Near a r) (sym (some-same _ _ h)) n)
bits_4-Near (suc (suc zero)) a r h n =
    bits_4_at_2 r (subst (λ a. Near a r) (sym (some-same _ _ h)) n)
bits_4-Near (suc (suc (suc zero))) a r h n =
    bits_4_at_3 r (subst (λ a. Near a r) (sym (some-same _ _ h)) n)
bits_4-Near (suc (suc (suc (suc k)))) a r h n = cc

pub bits_8-Near : (k : ℕ) (a r : ℤ) → get_elem? level_8 k ≡ some a → Near a r → bits_8 r ≡ k
bits_8-Near zero a r h n = bits_8_at_0 r (subst (λ a. Near a r) (sym (some-same _ _ h)) n)
bits_8-Near (suc zero) a r h n = bits_8_at_1 r (subst (λ a. Near a r) (sym (some-same _ _ h)) n)
bits_8-Near (suc (suc zero)) a r h n =
    bits_8_at_2 r (subst (λ a. Near a r) (sym (some-same _ _ h)) n)
bits_8-Near (suc (suc (suc zero))) a r h n =
    bits_8_at_3 r (subst (λ a. Near a r) (sym (some-same _ _ h)) n)
bits_8-Near (suc (suc (suc (suc zero)))) a r h n =
    bits_8_at_4 r (subst (λ a. Near a r) (sym (some-same _ _ h)) n)
bits_8-Near (suc (suc (suc (suc (suc zero))))) a r h n =
    bits_8_at_5 r (subst (λ a. Near a r) (sym (some-same _ _ h)) n)
bits_8-Near (suc (suc (suc (suc (suc (suc zero)))))) a r h n =
    bits_8_at_6 r (subst (λ a. Near a r) (sym (some-same _ _ h)) n)
bits_8-Near (suc (suc (suc (suc (suc (suc (suc zero))))))) a r h n =
    bits_8_at_7 r (subst (λ a. Near a r) (sym (some-same _ _ h)) n)
bits_8-Near (suc (suc (suc (suc (suc (suc (suc (suc k)))))))) a r h n = cc
