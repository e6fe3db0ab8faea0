-- ===== src/Calibration/Aligned.antt =====
-- PYTHON/IrisUtils/sample_offset_cal.py: where the boards' pilots are after the calibration.
use houdini_lab.Dashboard.Sensors.{◌>>=◌}
use houdini_lab.Common.{
  List, ℕ, ◌≡◌, ltb, some, none, replicate, Bool-cases, Option, false, All, ◌∷◌, inl, ◌<◌, arith,
  length, suc, ◌+◌, ◌-◌, inr, [], true, zero, refl, ap, ◌⊎◌, Bool, if◌then◌else◌,
}
use houdini_lab.Calibration.Votes.{
  votes, Vote, writes_of, occurrences, leader, calibrate_rest, most_common, any_below, judge,
  calibration, Trigger, adjust, calibrate, incr_time, decr_time, vote, calibrated, failed, Outcome,
}

-- The index after a write: the code's comment says that it jumps by one.
unfoldable pub moved : List Trigger → ℕ → ℕ
moved [] n = n
moved (incr_time ∷ ws) n = moved ws (suc n)
moved (decr_time ∷ ws) n = moved ws (n - 1)

-- The writes take each board's index to the reference.
unfoldable pub Reaches : ℕ → List Vote → List (List Trigger) → Type 0
unfolding moved
Reaches reference [] [] = Unit
Reaches reference [] (ws ∷ wss) = ⊥
Reaches reference (v ∷ vs) [] = ⊥
Reaches reference (v ∷ vs) (ws ∷ wss) =
    ((n : ℕ) × (v.most_freq ≡ some n) × (moved ws n ≡ reference)) × Reaches reference vs wss

abbrev pub Passed : Vote → Type 0
Passed v = (n : ℕ) × (v.most_freq ≡ some n)

abbrev Seen : Vote → Type 0
Seen v = (v.most_freq ≡ none → v.num_occurr ≡ 1)

moved-incr : (k n : ℕ) → moved (replicate k incr_time) n ≡ n + k
unfolding moved
moved-incr zero n = omega arith
moved-incr (suc k) n = omega (arith, moved-incr k (suc n))

moved-decr : (k n : ℕ) → moved (replicate k decr_time) n ≡ n - k
unfolding moved
moved-decr zero n = omega arith
moved-decr (suc k) n = omega (arith, moved-decr k (n - 1))

pub moved-writes_of : (reference n : ℕ) → moved (writes_of reference n) n ≡ reference
unfolding writes_of
moved-writes_of reference n = elim (Bool-cases (ltb n reference)) [
  | inl less ↦ rw less (ground (arith, moved-incr (reference - n) n))
  | inr more ↦ rw more (ground (arith, moved-decr (n - reference) n))
]

vote-Seen : (all : List (Option ℕ)) (x : Option ℕ) → Seen (vote all x)
unfolding occurrences
vote-Seen all none h = refl
vote-Seen all (some x) h = cc

choice-Seen : (a b : Vote) (c : Bool) → Seen a → Seen b → Seen (if c then a else b)
choice-Seen a b true s t = s
choice-Seen a b false s t = t

leader-Seen :
    (all : List (Option ℕ)) (best : Vote) (xs : List (Option ℕ))
    → Seen best
    → Seen (leader all best xs)
unfolding leader
leader-Seen all best [] s = s
leader-Seen all best (x ∷ xs) s =
    let c = ltb best.num_occurr (occurrences x all) in
    leader-Seen all (if c then vote all x else best) xs
      (choice-Seen (vote all x) best c (vote-Seen all x) s)

Option-cases : (m : Option ℕ) → (m ≡ none) ⊎ ((n : ℕ) × (m ≡ some n))
Option-cases none = inl refl
Option-cases (some n) = inr (n, refl)

Seen-Passed : (v : Vote) → Seen v → ltb v.num_occurr 80 ≡ false → Passed v
Seen-Passed v s h = elim (Option-cases v.most_freq) [
  | inl missing ↦ absurd (ground (arith, s missing))
  | inr found ↦ found
]

calibrate_rest-Reaches :
    (reference : ℕ) (vs : List Vote)
    → All Passed vs
    → (wss : List (List Trigger)) × (calibrate_rest (some reference) vs ≡ some wss)
      × Reaches reference vs wss
unfolding calibrate_rest Reaches adjust
calibrate_rest-Reaches reference [] h = ([], refl, tt)
calibrate_rest-Reaches reference (v ∷ vs) ((n, e), h) =
    let (wss, done, reach) = calibrate_rest-Reaches reference vs h in
    (
      writes_of reference n ∷ wss,
      rw (e, ◌>>=◌, done) refl,
      ((n, e, moved-writes_of reference n), reach),
    )

-- Each column has a pilot.
abbrev pub Pilots : List (Option ℕ) → Type 0
Pilots c = 0 < length c

most_common-Seen : (c : List (Option ℕ)) → Pilots c → (v : Vote) × (most_common c ≡ some v) × Seen v
unfolding most_common
most_common-Seen [] h = absurd (omega arith)
most_common-Seen (x ∷ xs) h =
    let all = x ∷ xs in
    (leader all (vote all x) xs, refl, leader-Seen all (vote all x) xs (vote-Seen all x))

votes-Seen :
    (cs : List (List (Option ℕ)))
    → All Pilots cs
    → (vs : List Vote) × (votes cs ≡ some vs) × All Seen vs × (length vs ≡ length cs)
unfolding votes
votes-Seen [] h = ([], refl, tt, refl)
votes-Seen (c ∷ cs) (p, h) =
    let (v, is_v, seen) = most_common-Seen c p in
    let (vs, are_vs, all_seen, same) = votes-Seen cs h in
    (v ∷ vs, rw (is_v, ◌>>=◌, are_vs) refl, (seen, all_seen), ap suc same)

any_below-Passed : (vs : List Vote) → All Seen vs → any_below vs ≡ false → All Passed vs
unfolding any_below
any_below-Passed [] s h = tt
any_below-Passed (v ∷ vs) (s, ss) h =
    (Seen-Passed v s (ground arith), any_below-Passed vs ss (ground arith))

judge-Passed :
    (v : Vote) (vs : List Vote)
    → All Passed (v ∷ vs)
    → any_below (v ∷ vs) ≡ false
    → (reference : ℕ) × (wss : List (List Trigger)) × (judge (v ∷ vs)
        ≡ some (calibrated (v ∷ vs) wss))
      × (v.most_freq ≡ some reference)
      × Reaches reference vs wss
unfolding judge calibrate
judge-Passed v vs ((reference, is_it), ps) h =
    let (wss, done, reach) = calibrate_rest-Reaches reference vs ps in
    (reference, wss, rw (h, is_it, done, ◌>>=◌) refl, is_it, reach)

module _ (v : Vote) (vs : List Vote) where
  -- What judge gives: the votes if one of them has less than 80 pilots, else the writes of every other
  -- board take its index to the one of the first board.
  pub Judged : Option Outcome → Type 0
  unfolding any_below Reaches
  Judged o =
      ((any_below (v ∷ vs) ≡ true) × (o ≡ some (failed (v ∷ vs))))
      ⊎ ((any_below (v ∷ vs) ≡ false)
          × (reference : ℕ) × (wss : List (List Trigger)) × (o ≡ some (calibrated (v ∷ vs) wss))
          × (v.most_freq ≡ some reference)
          × Reaches reference vs wss)

  judge-Judged : All Seen (v ∷ vs) → Judged (judge (v ∷ vs))
  unfolding judge Judged
  judge-Judged seen = elim (Bool-cases (any_below (v ∷ vs))) [
    | inl low ↦ inl (low, rw low refl)
    | inr high ↦
        let (reference, wss, e, is_it, reach) =
          judge-Passed v vs (any_below-Passed (v ∷ vs) seen high) high in
        inr (high, reference, wss, e, is_it, reach)
  ]

-- When each board has received a pilot, the calibration never raises: it fails with the votes if one
-- of them has less than 80 pilots, else the writes of every other board take its index to the one of
-- the first board.
pub calibration-Judged :
    (c : List (Option ℕ)) (cs : List (List (Option ℕ)))
    → All Pilots (c ∷ cs)
    → (v : Vote) × (vs : List Vote) × (votes (c ∷ cs) ≡ some (v ∷ vs))
      × Judged v vs (calibration (c ∷ cs))
unfolding calibration votes
calibration-Judged c cs (p, h) =
    let (v, is_v, seen) = most_common-Seen c p in
    let (vs, are_vs, all_seen, same) = votes-Seen cs h in
    (
      v,
      vs,
      rw (is_v, ◌>>=◌, are_vs) refl,
      rw (is_v, ◌>>=◌, are_vs) (judge-Judged v vs (seen, all_seen)),
    )
