-- ===== src/Mimo/Transmit/Good.antt =====
-- MATLAB/mimo_driver.py, txrx_uplink: what the frames that it returns are.
use houdini_lab.Mimo.Receive.Complete.{waves, recv_all_complete, recv_all_complete_b}
use houdini_lab.Mimo.Transmit.{Matrix, uplink_bs_sched, try_verdict, uplink_frames, is_good}
use houdini_lab.Mimo.Driver.{Driver, n_users}
use houdini_lab.Mimo.Receive.{recv_all, count_receive, is_count}
use houdini_lab.Common.{
  All, ℕ, Bool, ◌≡◌, ◌<◌, some, true, arith, ◌≤◌, suc, ◌+◌, zero, ◌/◌, refl, false, ◌^◌, Option,
  not, ◌⊎◌, ◌&&◌, inl, if◌then◌else◌, ◌==◌, inr, ◌||◌, ◌∙◌, ap, length, List, ltb, sym, ◌∷◌, ◌*◌,
  [],
}
use houdini_lab.Mimo.Frames.{
  verify_signal_quality, all_triggered, received, triggers, zeros, Attempt, Verdict,
}
use houdini_lab.Mimo.Samples.{Samples}
use houdini_lab.Common.Options.{>>=-eq-some}
use mathlib.Core.Path.{subst}
use mathlib.Core.Option.{some_inj}
use houdini_lab.Mimo.Frames.Good.{frames-Accepted, Accepted}

low_parts :
    (x y : Bool) (rest : Option Bool)
    → (if x || y then some false else rest) ≡ some true
    → (x ≡ false) × (rest ≡ some true)
low_parts true y rest h = cc
low_parts false true rest h = cc
low_parts false false rest h = (refl, h)

new_parts : (t : ℕ) (rest : Bool) → (not (t == 0) && rest) ≡ true → (0 < t) × (rest ≡ true)
new_parts t rest h = (ground arith, ground arith)

from_here : (j i : ℕ) → j ≤ i → (j ≡ i) ⊎ (suc j ≤ i)
from_here j i h = ground arith

module _ {np : Samples} where
  -- Boards that pass the check have no low signal on channel A.
  verify-low :
      (n j len n_r : ℕ) (both : Bool) (a : Attempt np)
      → verify_signal_quality np n both (received np n j len n_r a) ≡ some true
      → (i : ℕ) → j ≤ i
      → i < j + n
      → (recv_all np (a.reads i) len n_r 1).low_a ≡ false
  unfolding verify_signal_quality received
  verify-low zero j len n_r both a h i lo hi = absurd (omega arith)
  verify-low (suc n) j len n_r both a h i lo hi =
      let first = recv_all np (a.reads j) len n_r 1 in
      let (fine, rest) = low_parts first.low_a (first.low_b && both) _ h in
      elim (from_here j i lo) [
        | inl here ↦ subst (λ (k : ℕ). (recv_all np (a.reads k) len n_r 1).low_a ≡ false) here fine
        | inr later ↦ verify-low n (suc j) len n_r both a rest i later (omega arith)
      ]

  -- Users that pass the check have counted a trigger.
  all_triggered-new :
      (n m u : ℕ) (a : Attempt np)
      → all_triggered n (triggers m u a) (zeros n) ≡ some true
      → (i : ℕ) → u ≤ i
      → i < u + n
      → 0 < a.ticks i / 2 ^ 32
  unfolding all_triggered triggers zeros
  all_triggered-new zero m u a h i lo hi = absurd (omega arith)
  all_triggered-new (suc n) zero u a h i lo hi = cc
  all_triggered-new (suc n) (suc m) u a h i lo hi =
      let (others, e, f) = >>=-eq-some (all_triggered n (triggers m (suc u) a) (zeros n)) _ h in
      let (fresh, rest) = new_parts (a.ticks u / 2 ^ 32) others (some_inj.0 f) in
      elim (from_here u i lo) [
        | inl here ↦ subst (λ (k : ℕ). 0 < a.ticks k / 2 ^ 32) here fresh
        | inr later ↦ all_triggered-new n m (suc u) a (e ∙ ap some rest) i later (omega arith)
      ]

both_parts : (x y : Bool) → (x && y) ≡ true → (x ≡ true) × (y ≡ true)
both_parts x y h = (ground arith, ground arith)

-- A good try passed both checks.
is_good-parts :
    {np : Samples} (n l c users len n_r : ℕ) (both : Bool) (old : List ℕ) (a : Attempt np)
    → is_good n l c users len n_r both old a ≡ some true
    → (verify_signal_quality np n both (received np l 0 len n_r a) ≡ some true)
      × (all_triggered users (triggers c 0 a) old ≡ some true)
unfolding is_good
is_good-parts n zero c users len n_r both old a h = cc
is_good-parts n (suc l) c users len n_r both old a h =
    let (clear, e, h1) =
      >>=-eq-some (verify_signal_quality _ n both (received _ (suc l) 0 len n_r a)) _ h in
    let (every, f, h2) = >>=-eq-some (all_triggered users (triggers c 0 a) old) _ h1 in
    let (p, q) = both_parts every clear (some_inj.0 h2) in (e ∙ ap some q, f ∙ ap some p)

module _ {np : Samples} (d : Driver) (x : Matrix np) where
  abbrev pub symbols : ℕ
  symbols = count_receive (uplink_bs_sched (n_users d))

  -- What each board has read on its channels, and what each user has counted.
  pub record IsGood (a : Attempt np) : Type 0 where
    pub complete :
        (j : ℕ)
        → j < d.n_bs_sdrs
        → (recv_all np (a.reads j) x.n_rows symbols 1).frames_a
          ≡ waves np (λ i. (a.reads j i).wave_a) symbols 0
    pub complete_b :
        (j : ℕ)
        → j < d.n_bs_sdrs
        → (recv_all np (a.reads j) x.n_rows symbols 1).frames_b
          ≡ waves np (λ i. (a.reads j i).wave_b) symbols 0
    pub heard : (u : ℕ) → u < n_users d → 0 < a.ticks u / 2 ^ 32

  -- A read that returns the number of samples asked for has filled its buffers.
  abbrev FillsBoth : Attempt np → Type 0
  FillsBoth a =
      (j i : ℕ)
      → is_count ((a.reads j) i).ret x.n_rows ≡ true
      → (length ((a.reads j) i).wave_a ≡ x.n_rows) × (length ((a.reads j) i).wave_b ≡ x.n_rows)

  abbrev pub Fills : (ℕ → Attempt np) → Type 0
  Fills tries = (k : ℕ) → FillsBoth (tries k)

  verdict_of : List ℕ → Attempt np → Option Verdict
  verdict_of =
      try_verdict d.n_bs_sdrs d.n_bs_sdrs d.n_ues (n_users d) x.n_rows symbols (ltb 1 d.n_bs_chan)

  -- What a good verdict of the uplink says.
  good_verdict :
      (a : Attempt np) (v : Verdict)
      → FillsBoth a
      → verdict_of (zeros (n_users d)) a ≡ some v
      → v.good ≡ true
      → IsGood a
  unfolding verdict_of try_verdict
  good_verdict a v fills h good =
      let old = zeros (n_users d) in
      let both = ltb 1 d.n_bs_chan in
      let (g, e, f) =
        >>=-eq-some
          (is_good d.n_bs_sdrs d.n_bs_sdrs d.n_ues (n_users d) x.n_rows symbols both old a) _ h in
      let passed = e ∙ ap some (ap (λ (w : Verdict). w.good) (some_inj.0 f) ∙ good) in
      let (clear, every) =
        is_good-parts d.n_bs_sdrs d.n_bs_sdrs d.n_ues (n_users d) x.n_rows symbols both old a
          passed in
      let once : 1 * symbols ≡ symbols = omega arith in
      record {
        complete = λ j below.
            recv_all_complete np (a.reads j) x.n_rows symbols 1 (λ i e. (fills j i e).0)
              (verify-low d.n_bs_sdrs 0 x.n_rows symbols both a clear j (omega arith) (omega arith))
            ∙ ap (λ n. waves np (λ i. (a.reads j i).wave_a) n 0) once;
        complete_b = λ j below.
            recv_all_complete_b np (a.reads j) x.n_rows symbols 1 (λ i e. (fills j i e).1)
              (verify-low d.n_bs_sdrs 0 x.n_rows symbols both a clear j (omega arith) (omega arith))
            ∙ ap (λ n. waves np (λ i. (a.reads j i).wave_b) n 0) once;
        heard = λ u below.
            all_triggered-new (n_users d) d.n_ues 0 a every u (omega arith) (omega arith);
      }

  keeps_zeros :
      (old : List ℕ) (a : Attempt np) (v : Verdict)
      → verdict_of old a ≡ some v
      → old ≡ zeros (n_users d)
      → v.old_triggers ≡ zeros (n_users d)
  unfolding verdict_of try_verdict
  keeps_zeros old a v h e =
      let (g, _, f) =
        >>=-eq-some
          (is_good d.n_bs_sdrs d.n_bs_sdrs d.n_ues (n_users d) x.n_rows symbols (ltb 1 d.n_bs_chan)
            old a)
          _ h in
      sym (ap (λ (w : Verdict). w.old_triggers) (some_inj.0 f)) ∙ e

  abbrev WasAccepted : (ℕ → Attempt np) → Attempt np → Type 0
  WasAccepted tries a = Accepted verdict_of tries (λ old. old ≡ zeros (n_users d)) keeps_zeros a

  -- An answer of the radios that is good.
  abbrev pub IsAnswer : (ℕ → Attempt np) → Attempt np → Type 0
  IsAnswer tries a = (k : ℕ) × (tries k ≡ a) × IsGood a

  accepted-IsAnswer :
      (tries : ℕ → Attempt np)
      → Fills tries
      → (a : Attempt np) → WasAccepted tries a
      → IsAnswer tries a
  accepted-IsAnswer tries fills a (k, at_k, old, zero_old, v, e, good) = (
    k,
    at_k,
    good_verdict a v (subst FillsBoth at_k (fills k)) (ap (λ o. verdict_of o a) (sym zero_old) ∙ e)
        good,
  )

  All-IsAnswer :
      (tries : ℕ → Attempt np)
      → Fills tries
      → (found : List (Attempt np)) → All (WasAccepted tries) found
      → All (IsAnswer tries) found
  All-IsAnswer tries fills [] h = tt
  All-IsAnswer tries fills (a ∷ found) h =
      (accepted-IsAnswer tries fills a h.0, All-IsAnswer tries fills found h.1)

  -- Where a read that returns n_samp fills its buffers: each try that the uplink accepts is an answer of
  -- the radios of which every board has the samples of all receive symbols on both channels, in the
  -- order of the reads, and in which every user has counted a trigger; there are no more of them than
  -- frames were asked for.
  pub uplink_frames-IsGood :
      (num_frames max_try : ℕ) (tries : ℕ → Attempt np) (found : List (Attempt np))
      → Fills tries
      → uplink_frames d x num_frames max_try tries ≡ some found
      → All (IsAnswer tries) found × (length found ≤ num_frames)
  unfolding uplink_frames verdict_of
  uplink_frames-IsGood num_frames max_try tries found fills h =
      let (all, size) =
        frames-Accepted verdict_of tries (λ old. old ≡ zeros (n_users d)) keeps_zeros
          (ltb 0 d.n_ues) num_frames max_try 0 (zeros (n_users d)) found refl h in
      (All-IsAnswer tries fills found all, size)
