-- ===== src/Calibration/Pairs.antt =====
-- PYTHON/IrisUtils/find_lts.py, find_lts: the peak that it returns.
use houdini_lab.Common.{
  ℕ, List, Option, ◌∷◌, ◌≡◌, none, ◌≤◌, false, true, [], if◌then◌else◌, suc, arith, Bool-cases, ◌⊎◌,
  some, refl, ◌==◌, ◌+◌, inl, get_elem?, inr, ◌++◌, ◌<◌, ltb, ◌*◌, Bool, take,
}
use houdini_lab.Calibration.Peaks.{
  best_pk, row_hits, second_peak_idx, has_first, best_of, above, find_lts, any_index, peaks,
  maximum,
}

-- The first of the peaks that has another one `spacing` before it.
unfoldable pub first_pair : ℕ → List ℕ → List ℕ → Option ℕ
first_pair spacing pks [] = none
first_pair spacing pks (y ∷ ys) =
    let rest = first_pair spacing pks ys in if has_first spacing pks y then some y else rest

-- Every peak of the list comes after `lo`.
abbrev pub Ascends : ℕ → List ℕ → Type 0
Ascends lo [] = Unit
Ascends lo (x ∷ xs) = (lo ≤ x) × Ascends (suc x) xs

row_hits-none :
    (spacing i y : ℕ) (pks : List ℕ)
    → has_first spacing pks y ≡ false
    → row_hits spacing i y pks ≡ []
unfolding row_hits has_first
row_hits-none spacing i y [] h = refl
row_hits-none spacing i y (x ∷ xs) h = ground (arith, row_hits-none spacing i y xs)

row_hits-some :
    (spacing i y : ℕ) (pks : List ℕ)
    → has_first spacing pks y ≡ true
    → (rest : List ℕ) × (row_hits spacing i y pks ≡ i ∷ rest)
unfolding row_hits has_first
row_hits-some spacing i y [] h = cc
row_hits-some spacing i y (x ∷ xs) h = elim (Bool-cases (y == x + spacing)) [
  | inl hit ↦ (row_hits spacing i y xs, rw hit refl)
  | inr miss ↦ let (rest, e) = row_hits-some spacing i y xs (ground arith) in (rest, rw miss e)
]

-- From row i on, the indices start with the row of the first pair.
second_peak_idx-first :
    (spacing i : ℕ) (pks ys : List ℕ)
    → ((second_peak_idx spacing pks i ys ≡ []) × (first_pair spacing pks ys ≡ none))
      ⊎ ((k : ℕ) × (js : List ℕ) × (second_peak_idx spacing pks i ys ≡ (i + k) ∷ js)
          × (first_pair spacing pks ys ≡ get_elem? ys k))
unfolding second_peak_idx first_pair
second_peak_idx-first spacing i pks [] = inl (refl, refl)
second_peak_idx-first spacing i pks (y ∷ ys) = elim (Bool-cases (has_first spacing pks y)) [
  | inl hit ↦
      let (more, e) = row_hits-some spacing i y pks hit in
      let here : i + 0 ≡ i = omega arith in
      inr (0, more ++ second_peak_idx spacing pks (suc i) ys, rw (e, here) refl, rw hit refl)
  | inr miss ↦
      let e = row_hits-none spacing i y pks miss in
      elim (second_peak_idx-first spacing (suc i) pks ys) [
        | inl none_left ↦ inl (rw e none_left.0, rw miss none_left.1)
        | inr (k, js, at_k, same) ↦
            let next : i + suc k ≡ suc i + k = omega arith in
            inr (suc k, js, rw (e, next) at_k, rw miss same)
      ]
]

has_first-none :
    (spacing y lo : ℕ) (pks : List ℕ)
    → 0 < spacing
    → y ≤ lo
    → Ascends lo pks
    → has_first spacing pks y ≡ false
unfolding has_first
has_first-none spacing y lo [] s l h = refl
has_first-none spacing y lo (x ∷ xs) s l h =
    ground (arith, has_first-none spacing y (suc x) xs s (omega arith) h.1)

any_index-suc : (k : ℕ) (js : List ℕ) → any_index (suc k ∷ js) ≡ true
unfolding any_index
any_index-suc k js = ground arith

-- Of ascending peaks, the best is the first one with a peak exactly `spacing` before it, and there is
-- none exactly if there is no such pair.
best_pk-first_pair :
    (spacing lo : ℕ) (pks : List ℕ)
    → 0 < spacing
    → Ascends lo pks
    → best_pk spacing pks ≡ first_pair spacing pks pks
unfolding best_pk best_of any_index second_peak_idx first_pair
best_pk-first_pair spacing lo [] s h = refl
best_pk-first_pair spacing lo (x ∷ xs) s h =
    let pks = x ∷ xs in
    let alone = has_first-none spacing x x pks s (omega arith) (omega arith, h.1) in
    let e = row_hits-none spacing 0 x pks alone in
    elim (second_peak_idx-first spacing 1 pks xs) [
      | inl empty ↦ rw (e, empty.0, alone, empty.1) refl
      | inr (k, js, at_k, same) ↦
          let next : 1 + k ≡ suc k = omega arith in
          let some_index : any_index (suc k ∷ js) ≡ true = any_index-suc k js in
          rw (e, at_k, alone, same, next, some_index) refl
    ]

Ascends-weaken : (lo : ℕ) (xs : List ℕ) → Ascends (suc lo) xs → Ascends lo xs
Ascends-weaken lo [] h = tt
Ascends-weaken lo (x ∷ xs) h = (omega arith, h.1)

above-Ascends : (level i : ℕ) (corr : List ℕ) → Ascends i (above level i corr)
unfolding above
above-Ascends level i [] = tt
above-Ascends level i (x ∷ xs) = elim (Bool-cases (ltb level (10 * x))) [
  | inl high ↦ rw high (omega arith, above-Ascends level (suc i) xs)
  | inr low ↦ rw low (Ascends-weaken i (above level (suc i) xs) (above-Ascends level (suc i) xs))
]

-- The LTS that find_lts returns is the first peak above the threshold that has another one exactly one
-- symbol before it; it returns none exactly if there is no such pair.
pub find_lts-first_pair :
    (provided : Bool) (thresh len : ℕ) (corr : List ℕ)
    → find_lts provided thresh len corr
      ≡ first_pair (if provided then 80 else 64) (peaks thresh len corr) (peaks thresh len corr)
unfolding find_lts peaks
find_lts-first_pair true thresh len corr =
    best_pk-first_pair 80 0 (peaks thresh len corr) (omega arith)
      (above-Ascends (thresh * maximum corr) 0 (take len corr))
find_lts-first_pair false thresh len corr =
    best_pk-first_pair 64 0 (peaks thresh len corr) (omega arith)
      (above-Ascends (thresh * maximum corr) 0 (take len corr))
