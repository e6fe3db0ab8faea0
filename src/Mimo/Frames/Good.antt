-- ===== src/Mimo/Frames/Good.antt =====
-- MATLAB/mimo_driver.py: which frames a transmission returns, and that it returns them.
use houdini_lab.Mimo.Frames.{Attempt, Verdict, try_frame, frame, cons_some, frames, Tried}
use houdini_lab.Common.{
  All, List, ◌∷◌, ℕ, [], Option, ◌≡◌, some, length, true, none, ◌≤◌, suc, arith, zero, Bool-cases,
  ◌<◌, inl, ◌+◌, inr, refl, ap, ◌∙◌, Bool, false,
}
use houdini_lab.Common.Options.{◌>>=◌, >>=-eq-some}
use mathlib.Core.Path.{subst}
use mathlib.Core.Option.{some_inj}
use houdini_lab.Mimo.Samples.{Samples}

module _ {np : Samples} (verdict : List ℕ → Attempt np → Option Verdict) (tries : ℕ → Attempt np)
    (Old : List ℕ → Type 0)
    (keeps : (old : List ℕ) (a : Attempt np) (v : Verdict)
      → verdict old a ≡ some v
      → Old old
      → Old v.old_triggers) where
  -- An answer that was found good, against old counts of the kind that the method keeps.
  abbrev pub Accepted : Attempt np → Type 0
  Accepted a =
      (k : ℕ) × (tries k ≡ a)
      × (old : List ℕ) × Old old
      × (v : Verdict) × (verdict old a ≡ some v)
      × (v.good ≡ true)

  abbrev IsFine : Option (Attempt np) → Type 0
  IsFine none = Unit
  IsFine (some a) = Accepted a

  try_frame-Accepted :
      (n k : ℕ) (old : List ℕ) (t : Tried np)
      → Old old
      → try_frame verdict tries n k old ≡ some t
      → IsFine t.accepted
  unfolding try_frame
  try_frame-Accepted zero k old t q h =
      let e : record { accepted = none; next = k } ≡ t = cc in
      subst (λ (x : Tried np). IsFine x.accepted) e tt
  try_frame-Accepted (suc n) k old t q h =
      let (v, e, h') = >>=-eq-some (verdict old (tries k)) _ h in
      elim (Bool-cases v.good) [
        | inl good ↦
            subst (λ (x : Tried np). IsFine x.accepted) (some_inj.0 (rw good at h'))
              (k, refl, old, q, v, e, good)
        | inr bad ↦
            try_frame-Accepted n (suc k) v.old_triggers t (keeps old (tries k) v e q) (rw bad at h')
      ]

  frame-Accepted :
      (i_bound : Bool) (n k : ℕ) (old : List ℕ) (t : Tried np)
      → Old old
      → frame verdict tries i_bound n k old ≡ some t
      → IsFine t.accepted
  unfolding frame
  frame-Accepted true zero k old t q h =
      subst (λ (x : Tried np). IsFine x.accepted) (some_inj.0 h) tt
  frame-Accepted false zero k old t q h = cc
  frame-Accepted i_bound (suc n) k old t q h = try_frame-Accepted (suc n) k old t q h

  cons_some-All :
      (o : Option (Attempt np)) (found : List (Attempt np))
      → IsFine o
      → All Accepted found
      → All Accepted (cons_some o found)
  cons_some-All none found h k = k
  cons_some-All (some a) found h k = (h, k)

  cons_some-length :
      (o : Option (Attempt np)) (found : List (Attempt np))
      → length (cons_some o found) ≤ suc (length found)
  cons_some-length none found = omega arith
  cons_some-length (some a) found = omega arith

  -- Every frame that is returned is an attempt that was found good, and there are at most as many as
  -- were asked for.
  pub frames-Accepted :
      (i_bound : Bool) (n max_try k : ℕ) (old : List ℕ) (found : List (Attempt np))
      → Old old
      → frames verdict tries i_bound n max_try k old ≡ some found
      → All Accepted found × (length found ≤ n)
  unfolding frames
  frames-Accepted i_bound zero max_try k old found q h =
      let e : [] ≡ found = cc in rw (← e) (tt, omega arith)
  frames-Accepted i_bound (suc n) max_try k old found q h =
      let (t, e, h1) = >>=-eq-some (frame verdict tries i_bound max_try k old) _ h in
      let (rest, e2, h2) = >>=-eq-some (frames verdict tries i_bound n max_try t.next old) _ h1 in
      let rec = frames-Accepted i_bound n max_try t.next old rest q e2 in
      let same : cons_some t.accepted rest ≡ found = cc in
      rw (← same) (
        cons_some-All t.accepted rest (frame-Accepted i_bound max_try k old t q e) rec.0,
        omega (arith, cons_some-length t.accepted rest, rec.1),
      )

  -- From old counts of that kind, a verdict is always reached, and one of any `max_try` answers in a
  -- row is good.
  pub record Answers (max_try : ℕ) : Type 0 where
    pub reached :
        (old : List ℕ) (k : ℕ) → Old old → (v : Verdict) × (verdict old (tries k) ≡ some v)
    pub good_in :
        (k : ℕ)
        → (i : ℕ) × (i < max_try)
          × ((old : List ℕ) (v : Verdict)
              → Old old
              → verdict old (tries (k + i)) ≡ some v
              → v.good ≡ true)

  try_frame-finds :
      (n k i : ℕ) (old : List ℕ)
      → ((old : List ℕ) (k : ℕ) → Old old → (v : Verdict) × (verdict old (tries k) ≡ some v))
      → Old old
      → i < n
      → ((old : List ℕ) (v : Verdict)
          → Old old
          → verdict old (tries (k + i)) ≡ some v
          → v.good ≡ true)
      → (a : Attempt np) × (k' : ℕ) × (try_frame verdict tries n k old
          ≡ some (record { accepted = some a; next = k' }))
  unfolding try_frame
  try_frame-finds zero k i old reached q below good = absurd (omega arith)
  try_frame-finds (suc n) k zero old reached q below good =
      let here : k + 0 ≡ k = omega arith in
      let (v, e) = reached old k q in
      let now = good old v q (ap (λ j. verdict old (tries j)) here ∙ e) in
      (tries k, suc k, rw (e, ◌>>=◌, now) refl)
  try_frame-finds (suc n) k (suc i) old reached q below good =
      let (v, e) = reached old k q in
      elim (Bool-cases v.good) [
        | inl now ↦ (tries k, suc k, rw (e, ◌>>=◌, now) refl)
        | inr later ↦
            let shift : k + suc i ≡ suc k + i = omega arith in
            let (a, k', f) =
              try_frame-finds n (suc k) i v.old_triggers reached (keeps old (tries k) v e q)
                (omega arith)
                (subst
                  (λ (j : ℕ).
                    (old : List ℕ) (w : Verdict)
                    → Old old
                    → verdict old (tries j) ≡ some w
                    → w.good ≡ true)
                  shift good) in
            (a, k', rw (e, ◌>>=◌, later) f)
      ]

  -- Where every run of `max_try` answers has a good one, all the frames are returned.
  pub frames-full :
      (i_bound : Bool) (n max_try k : ℕ) (old : List ℕ)
      → Answers max_try
      → Old old
      → (found : List (Attempt np)) × (frames verdict tries i_bound n max_try k old ≡ some found)
        × (length found ≡ n)
  unfolding frames frame
  frames-full i_bound zero max_try k old answers q = ([], refl, refl)
  frames-full i_bound (suc n) zero k old answers q =
      let (i, below, good) = answers.good_in 0 in absurd (omega arith)
  frames-full i_bound (suc n) (suc m) k old answers q =
      let (i, below, good) = answers.good_in k in
      let (a, k', e) = try_frame-finds (suc m) k i old answers.reached q below good in
      let (found, f, size) = frames-full i_bound n (suc m) k' old answers q in
      (a ∷ found, rw (e, ◌>>=◌, f, ◌>>=◌) refl, omega (arith, size))

module _ {np : Samples} (verdict : List ℕ → Attempt np → Option Verdict)
    (tries : ℕ → Attempt np) where
  -- Where no verdict is reached, no frame is.
  pub frames-none :
      (i_bound : Bool) (n max_try k : ℕ) (old : List ℕ)
      → 0 < max_try
      → verdict old (tries k) ≡ none
      → frames verdict tries i_bound (suc n) max_try k old ≡ none
  unfolding frames frame try_frame
  frames-none i_bound n zero k old some_try h = absurd (omega arith)
  frames-none i_bound n (suc m) k old some_try h = rw (h, ◌>>=◌) refl
