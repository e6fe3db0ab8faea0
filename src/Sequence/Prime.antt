-- ===== src/Sequence/Prime.antt =====
-- PYTHON/IrisUtils/generate_sequence.py: which prime a length gets.
use houdini_lab.Common.{
  ℕ, List, ◌<◌, ◌≡◌, ◌∷◌, ◌≤◌, Bool, true, drop, [], ◌⊎◌, inl, ltb, refl, arith, ◌&&◌, inr, false,
  Bool-cases, ◌≢◌, if◌then◌else◌, ◌==◌, ◌||◌,
}
use houdini_lab.Sequence.Zadoff.{choose_prime, zc_prime, primes}

-- Each number of the list is larger than the one before it.
abbrev pub Increases : ℕ → List ℕ → Type 0
Increases p [] = Unit
Increases p (q ∷ qs) = (p < q) × Increases q qs

-- The number is in the list.
abbrev pub IsIn : ℕ → List ℕ → Type 0
IsIn n [] = ⊥
IsIn n (p ∷ ps) = (n ≡ p) ⊎ IsIn n ps

-- The largest number of the list that is less than the limit.
abbrev pub IsLargest : ℕ → List ℕ → ℕ → Type 0
IsLargest limit ps m = IsIn m ps × (m < limit) × ((p : ℕ) → IsIn p ps → p < limit → p ≤ m)

later : (p n : ℕ) (ps : List ℕ) → Increases p ps → IsIn n ps → p < n
later p n [] h k = absurd k
later p n (q ∷ qs) h (inl e) = omega (arith, h.0)
later p n (q ∷ qs) h (inr k) = omega (arith, h.0, later q n qs h.1 k)

if-IsLargest :
    (c : Bool) (p r limit : ℕ) (ps : List ℕ)
    → (c ≡ true → IsLargest limit ps p)
    → (c ≡ false → IsLargest limit ps r)
    → IsLargest limit ps (if c then p else r)
if-IsLargest true p r limit ps now rest = now refl
if-IsLargest false p r limit ps now rest = rest refl

choose_prime-IsLargest :
    (p : ℕ) (ps : List ℕ) (last limit : ℕ)
    → Increases p ps
    → p < limit
    → limit < last
    → IsIn last (p ∷ ps)
    → ¬ IsIn limit (p ∷ ps)
    → IsLargest limit (p ∷ ps) (choose_prime (p ∷ ps) last limit)
unfolding choose_prime
choose_prime-IsLargest p [] last limit h lo hi (inl e) fresh = absurd (omega arith)
choose_prime-IsLargest p [] last limit h lo hi (inr k) fresh = absurd k
choose_prime-IsLargest p (q ∷ qs) last limit h lo hi is fresh =
    if-IsLargest (ltb p limit && ltb limit q) p (choose_prime (q ∷ qs) last limit) limit
      (p ∷ q ∷ qs)
      (λ here. (
        inl refl,
        lo,
        λ x among below. elim among [
          | inl e ↦ omega (arith, e)
          | inr k ↦ absurd (not_below x here below k)
        ],
      ))
      (λ beyond.
        let new : limit ≢ q = λ e. fresh (inr (inl e)) in
        let next : q < limit = ground (arith, beyond) in
        let (among, below, largest) =
          choose_prime-IsLargest q qs last limit h.1 next hi (tail_of is) (λ k. fresh (inr k)) in
        (
          inr among,
          below,
          λ x k lt. elim k [
            | inl e ↦ omega (arith, e, h.0, largest q (inl refl) next)
            | inr k' ↦ largest x k' lt
          ],
        ))
  where
    tail_of : IsIn last (p ∷ q ∷ qs) → IsIn last (q ∷ qs)
    tail_of (inl e) = absurd (omega arith)
    tail_of (inr k) = k

    not_below : (x : ℕ) → (ltb p limit && ltb limit q) ≡ true → x < limit → ¬ IsIn x (q ∷ qs)
    not_below x here below (inl e) = ground (arith, here, e)
    not_below x here below (inr k) = ground (arith, here, later q x qs h.1 k)

-- From the limit on, no two neighbours are around it.
choose_prime-above :
    (p : ℕ) (ps : List ℕ) (last limit : ℕ)
    → Increases p ps
    → limit ≤ p
    → choose_prime (p ∷ ps) last limit ≡ last
unfolding choose_prime
choose_prime-above p [] last limit h le = refl
choose_prime-above p (q ∷ qs) last limit h le =
    let past : (ltb p limit && ltb limit q) ≡ false = ground arith in
    rw past (choose_prime-above q qs last limit h.1 (omega (arith, h.0)))

choose_prime-last :
    (p : ℕ) (ps : List ℕ) (last limit : ℕ)
    → Increases p ps
    → IsIn limit (p ∷ ps)
    → choose_prime (p ∷ ps) last limit ≡ last
unfolding choose_prime
choose_prime-last p ps last limit h (inl e) = choose_prime-above p ps last limit h (omega arith)
choose_prime-last p [] last limit h (inr k) = absurd k
choose_prime-last p (q ∷ qs) last limit h (inr (inl e)) =
    let past : (ltb p limit && ltb limit q) ≡ false = ground arith in
    rw past (choose_prime-last q qs last limit h.1 (inl e))
choose_prime-last p (q ∷ qs) last limit h (inr (inr k)) =
    let more = later q limit qs h.1 k in
    let past : (ltb p limit && ltb limit q) ≡ false = ground arith in
    rw past (choose_prime-last q qs last limit h.1 (inr k))

abbrev increasing : ℕ → List ℕ → Bool
increasing p [] = true
increasing p (q ∷ qs) = ltb p q && increasing q qs

increasing-Increases : (p : ℕ) (qs : List ℕ) → increasing p qs ≡ true → Increases p qs
increasing-Increases p [] h = tt
increasing-Increases p (q ∷ qs) h =
    let less : ltb p q ≡ true = ground arith in
    (ground arith, increasing-Increases q qs (ground arith))

abbrev is_in : ℕ → List ℕ → Bool
is_in n [] = false
is_in n (p ∷ ps) = (n == p) || is_in n ps

is_in-IsIn : (n : ℕ) (ps : List ℕ) → is_in n ps ≡ true → IsIn n ps
is_in-IsIn n [] h = cc
is_in-IsIn n (p ∷ ps) h = elim (Bool-cases (n == p)) [
  | inl same ↦ inl (ground arith)
  | inr other ↦ inr (is_in-IsIn n ps (ground arith))
]

-- A length between the first and the last prime of the table gets the largest prime of the table that is
-- less than it, if it is not in the table itself; if it is, it gets the last one, 2039.
pub zc_prime-Chosen :
    (seq_length : ℕ)
    → 2 < seq_length
    → seq_length < 2039
    → (¬ IsIn seq_length primes → IsLargest seq_length primes (zc_prime seq_length))
      × (IsIn seq_length primes → zc_prime seq_length ≡ 2039)
unfolding zc_prime
zc_prime-Chosen seq_length lo hi =
    let sorted = increasing-Increases 2 (drop 1 primes) refl in
    (
      choose_prime-IsLargest 2 (drop 1 primes) 2039 seq_length sorted lo hi
          (is_in-IsIn 2039 primes refl),
      choose_prime-last 2 (drop 1 primes) 2039 seq_length sorted,
    )
