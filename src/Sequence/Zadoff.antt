-- ===== src/Sequence/Zadoff.antt =====
-- PYTHON/IrisUtils/generate_sequence.py, the Zadoff-Chu sequence of generate_training_seq: the prime,
-- the phases and their place among the subcarriers. The complex exponential of -a pi / M (numpy) is
-- `exp a M`, and the inverse FFT of a list of subcarriers is `ifft`.
use houdini_lab.Common.Options.{◌>>=◌}
use houdini_lab.Common.{
  List, ℕ, ◌∷◌, ◌*◌, suc, ◌-◌, [], replicate, Option, if◌then◌else◌, ◌+◌, ◌/◌, ◌%◌, ◌++◌, ltb, leb,
  zero, some, ◌&&◌,
}
use houdini_lab.Sequence.Prefix.{affix_cp, upsampled}

abbrev pub primes : List ℕ
primes =
    2 ∷ 3 ∷ 5 ∷ 7 ∷ 11 ∷ 13 ∷ 17 ∷ 19 ∷ 23 ∷ 29 ∷ 31 ∷ 37 ∷ 41 ∷ 43 ∷ 47 ∷ 53 ∷ 59 ∷ 61 ∷ 67 ∷ 71
    ∷ 73 ∷ 79 ∷ 83 ∷ 89 ∷ 97 ∷ 101 ∷ 103 ∷ 107 ∷ 109 ∷ 113 ∷ 127 ∷ 131 ∷ 137 ∷ 139 ∷ 149 ∷ 151 ∷ 157
    ∷ 163 ∷ 167 ∷ 173 ∷ 179 ∷ 181 ∷ 191 ∷ 193 ∷ 197 ∷ 199 ∷ 211 ∷ 223 ∷ 227 ∷ 229 ∷ 233 ∷ 239 ∷ 241
    ∷ 251 ∷ 257 ∷ 263 ∷ 269 ∷ 271 ∷ 277 ∷ 281 ∷ 283 ∷ 293 ∷ 307 ∷ 311 ∷ 313 ∷ 317 ∷ 331 ∷ 337 ∷ 347
    ∷ 349 ∷ 353 ∷ 359 ∷ 367 ∷ 373 ∷ 379 ∷ 383 ∷ 389 ∷ 397 ∷ 401 ∷ 409 ∷ 419 ∷ 421 ∷ 431 ∷ 433 ∷ 439
    ∷ 443 ∷ 449 ∷ 457 ∷ 461 ∷ 463 ∷ 467 ∷ 479 ∷ 487 ∷ 491 ∷ 499 ∷ 503 ∷ 509 ∷ 521 ∷ 523 ∷ 541 ∷ 547
    ∷ 557 ∷ 563 ∷ 569 ∷ 571 ∷ 577 ∷ 587 ∷ 593 ∷ 599 ∷ 601 ∷ 607 ∷ 613 ∷ 617 ∷ 619 ∷ 631 ∷ 641 ∷ 643
    ∷ 647 ∷ 653 ∷ 659 ∷ 661 ∷ 673 ∷ 677 ∷ 683 ∷ 691 ∷ 701 ∷ 709 ∷ 719 ∷ 727 ∷ 733 ∷ 739 ∷ 743 ∷ 751
    ∷ 757 ∷ 761 ∷ 769 ∷ 773 ∷ 787 ∷ 797 ∷ 809 ∷ 811 ∷ 821 ∷ 823 ∷ 827 ∷ 829 ∷ 839 ∷ 853 ∷ 857 ∷ 859
    ∷ 863 ∷ 877 ∷ 881 ∷ 883 ∷ 887 ∷ 907 ∷ 911 ∷ 919 ∷ 929 ∷ 937 ∷ 941 ∷ 947 ∷ 953 ∷ 967 ∷ 971 ∷ 977
    ∷ 983 ∷ 991 ∷ 997 ∷ 1009 ∷ 1013 ∷ 1019 ∷ 1021 ∷ 1031 ∷ 1033 ∷ 1039 ∷ 1049 ∷ 1051 ∷ 1061 ∷ 1063
    ∷ 1069 ∷ 1087 ∷ 1091 ∷ 1093 ∷ 1097 ∷ 1103 ∷ 1109 ∷ 1117 ∷ 1123 ∷ 1129 ∷ 1151 ∷ 1153 ∷ 1163
    ∷ 1171 ∷ 1181 ∷ 1187 ∷ 1193 ∷ 1201 ∷ 1213 ∷ 1217 ∷ 1223 ∷ 1229 ∷ 1231 ∷ 1237 ∷ 1249 ∷ 1259
    ∷ 1277 ∷ 1279 ∷ 1283 ∷ 1289 ∷ 1291 ∷ 1297 ∷ 1301 ∷ 1303 ∷ 1307 ∷ 1319 ∷ 1321 ∷ 1327 ∷ 1361
    ∷ 1367 ∷ 1373 ∷ 1381 ∷ 1399 ∷ 1409 ∷ 1423 ∷ 1427 ∷ 1429 ∷ 1433 ∷ 1439 ∷ 1447 ∷ 1451 ∷ 1453
    ∷ 1459 ∷ 1471 ∷ 1481 ∷ 1483 ∷ 1487 ∷ 1489 ∷ 1493 ∷ 1499 ∷ 1511 ∷ 1523 ∷ 1531 ∷ 1543 ∷ 1549
    ∷ 1553 ∷ 1559 ∷ 1567 ∷ 1571 ∷ 1579 ∷ 1583 ∷ 1597 ∷ 1601 ∷ 1607 ∷ 1609 ∷ 1613 ∷ 1619 ∷ 1621
    ∷ 1627 ∷ 1637 ∷ 1657 ∷ 1663 ∷ 1667 ∷ 1669 ∷ 1693 ∷ 1697 ∷ 1699 ∷ 1709 ∷ 1721 ∷ 1723 ∷ 1733
    ∷ 1741 ∷ 1747 ∷ 1753 ∷ 1759 ∷ 1777 ∷ 1783 ∷ 1787 ∷ 1789 ∷ 1801 ∷ 1811 ∷ 1823 ∷ 1831 ∷ 1847
    ∷ 1861 ∷ 1867 ∷ 1871 ∷ 1873 ∷ 1877 ∷ 1879 ∷ 1889 ∷ 1901 ∷ 1907 ∷ 1913 ∷ 1931 ∷ 1933 ∷ 1949
    ∷ 1951 ∷ 1973 ∷ 1979 ∷ 1987 ∷ 1993 ∷ 1997 ∷ 1999 ∷ 2003 ∷ 2011 ∷ 2017 ∷ 2027 ∷ 2029 ∷ 2039 ∷ []

-- The loop over two neighbours in the table; without a break the last one is kept.
unfoldable pub choose_prime : List ℕ → ℕ → ℕ → ℕ
choose_prime [] m seq_length = m
choose_prime (p ∷ []) m seq_length = m
choose_prime (p ∷ q ∷ ps) m seq_length =
    let rest = choose_prime (q ∷ ps) m seq_length in
    if ltb p seq_length && ltb seq_length q then p else rest

unfoldable pub zc_prime : ℕ → ℕ
zc_prime seq_length = choose_prime primes 2039 seq_length

-- `floor(M * (u + 1) / 31 + 0.5)` of u = 1.
abbrev pub root_of : ℕ → ℕ
root_of m = (4 * m + 31) / 62

-- `2 ** ceil(log2(seq_length))`, doubling from 1 on; of 0, numpy gives 0.
unfoldable pub double_up : ℕ → ℕ → ℕ → ℕ
double_up zero size seq_length = size
double_up (suc fuel) size seq_length =
    let rest = double_up fuel (2 * size) seq_length in if leb seq_length size then size else rest

unfoldable pub fft_length : ℕ → ℕ
fft_length zero = 0
fft_length (suc n) = double_up (suc n) 1 (suc n)

abbrev pub start_index : ℕ → ℕ
start_index seq_length = (fft_length seq_length - seq_length) / 2

module _ {ℓ} {A : Type ℓ} (null : A) (exp : ℕ → ℕ → A) where
  -- `p`, of the indices from i on.
  unfoldable pub phases : ℕ → ℕ → ℕ → List A
  phases zero i prime = []
  phases (suc n) i prime =
      let m = i % prime in exp (root_of prime * m * (m + 1)) prime ∷ phases n (suc i) prime

  unfoldable pub zadoff_freq : ℕ → List A
  zadoff_freq seq_length =
      replicate (start_index seq_length) null
      ++ (phases seq_length 0 (zc_prime seq_length)
          ++ replicate (fft_length seq_length - (start_index seq_length + seq_length)) null)

  unfoldable pub zadoff_chu {κ} : {B : Type κ} → (List A → List B) → ℕ → ℕ → ℕ → Option (List B)
  zadoff_chu ifft seq_length cp upsample = do
    freq ← upsampled null (zadoff_freq seq_length) upsample
    some (affix_cp cp (ifft freq) 1)
