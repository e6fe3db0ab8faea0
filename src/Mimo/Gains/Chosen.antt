-- ===== src/Mimo/Gains/Chosen.antt =====
-- MATLAB/mimo_driver.py, set_opt_gains: the gains that it returns have the most new beacons.
use mathlib.Core.Path.{subst}
use houdini_lab.Common.Int.{pos, ◌≤ℤ◌, ℤ, negsuc, leb_ℤ}
use houdini_lab.Common.{
  All, ◌≢◌, List, ◌∷◌, ◌≡◌, ◌⊎◌, [], arith, true, inl, Bool-cases, inr, not, ◌∙◌, false, ◌&&◌, ℕ,
  suc, ◌<◌, ◌≤◌, zero, refl, some, none, ◌==◌, sym, ap,
}
use houdini_lab.Mimo.Gains.{
  Reading, Best, better, pick, set_opt_gains, is_zero, Driver, n_users, readings, combinations,
  gains, no_gains,
}

-- A reading at which the client heard something.
abbrev pub Counts : Reading → Type 0
Counts r = r.new_triggers ≢ pos 0

-- The result is that of a reading.
abbrev pub IsFrom : Best → List Reading → Type 0
IsFrom b [] = ⊥
IsFrom b (r ∷ rs) =
    ((b.txg ≡ pos r.combo.tx_gain)
      × (b.rxg ≡ pos r.combo.rx_gain)
      × (b.current_max ≡ r.new_triggers)
      × Counts r)
    ⊎ IsFrom b rs

true≢false : true ≢ false
true≢false h = cc

is_zero-false : (z : ℤ) → z ≢ pos 0 → is_zero z ≡ false
is_zero-false (pos zero) h = absurd (h refl)
is_zero-false (pos (suc n)) h = ground arith
is_zero-false (negsuc n) h = refl

is_zero-ne : (z : ℤ) → is_zero z ≡ false → z ≢ pos 0
is_zero-ne (pos n) h e = ground arith
is_zero-ne (negsuc n) h e = cc

better-grows : (r : Reading) (b : Best) → b.current_max ≤ℤ (better r b).current_max
unfolding better
better-grows r b = ground arith

better-counts : (r : Reading) (b : Best) → Counts r → r.new_triggers ≤ℤ (better r b).current_max
unfolding better
better-counts r b h = let e = is_zero-false r.new_triggers h in ground arith

pick-grows : (rs : List Reading) (b : Best) → b.current_max ≤ℤ (pick rs b).current_max
unfolding pick
pick-grows [] b = omega arith
pick-grows (r ∷ rs) b = omega (arith, better-grows r b, pick-grows rs (better r b))

pick-bound :
    (rs : List Reading) (b : Best)
    → All (λ r. Counts r → r.new_triggers ≤ℤ (pick rs b).current_max) rs
unfolding pick
pick-bound [] b = tt
pick-bound (r ∷ rs) b = (
  λ h. omega (arith, better-counts r b h, pick-grows rs (better r b)),
  pick-bound rs (better r b),
)

-- The new best is the old one, or is that of the reading.
better-IsFrom :
    (r : Reading) (b : Best)
    → (better r b ≡ b) ⊎ (((better r b).valid ≡ true) × IsFrom (better r b) (r ∷ []))
unfolding better
better-IsFrom r b =
    elim (Bool-cases (not (is_zero r.new_triggers) && leb_ℤ b.current_max r.new_triggers)) [
      | inl yes_better ↦
          rw yes_better
            (inr (refl, inl (refl, refl, refl, is_zero-ne r.new_triggers (ground arith))))
      | inr not_better ↦ rw not_better (inl refl)
    ]

pick-IsFrom :
    (rs : List Reading) (b : Best)
    → (pick rs b ≡ b) ⊎ (((pick rs b).valid ≡ true) × IsFrom (pick rs b) rs)
unfolding pick
pick-IsFrom [] b = inl refl
pick-IsFrom (r ∷ rs) b = elim (pick-IsFrom rs (better r b)) [
  | inr (v, later) ↦ inr (v, inr later)
  | inl same ↦ elim (better-IsFrom r b) [
    | inl kept ↦ inl (same ∙ kept)
    | inr (v, here) ↦ elim here [
      | inl fields ↦
          inr
            (subst (λ (c : Best). (c.valid ≡ true) × IsFrom c (r ∷ rs)) (sym same) (v, inl fields))
      | inr never ↦ absurd never
    ]
  ]
]

-- For one client and some frames, the search ends; no combination gave more new triggers than the
-- maximum that it returns, and if its gains are valid they are those of a combination that gave it.
pub set_opt_gains-best :
    (d : Driver) (num_frames : ℕ) (counts : ℕ → ℕ)
    → 0 < num_frames
    → n_users d ≡ 1
    → (b : Best) × (set_opt_gains d num_frames counts ≡ some b)
      × All
          (λ r. Counts r → r.new_triggers ≤ℤ b.current_max)
          (readings (combinations gains gains) counts 0 0)
      × (b.valid ≡ true → IsFrom b (readings (combinations gains gains) counts 0 0))
unfolding set_opt_gains
set_opt_gains-best d num_frames counts some_frames one =
    let rs = readings (combinations gains gains) counts 0 0 in
    let e1 : (num_frames == 0) ≡ false = ground arith in
    let e2 : (n_users d == 0) ≡ false = ground arith in
    let e3 : (n_users d == 1) ≡ true = ground arith in
    (
      pick rs no_gains,
      rw (e1, e2, e3) refl,
      pick-bound rs no_gains,
      λ v. elim (pick-IsFrom rs no_gains) [
        | inl same ↦ absurd (true≢false (sym v ∙ ap (λ (c : Best). c.valid) same))
        | inr (_, from) ↦ from
      ],
    )

-- With two users or more the search ends with an exception.
set_opt_gains-several :
    (d : Driver) (num_frames : ℕ) (counts : ℕ → ℕ)
    → 2 ≤ n_users d
    → set_opt_gains d num_frames counts ≡ none
unfolding set_opt_gains
set_opt_gains-several d num_frames counts h = ground arith
