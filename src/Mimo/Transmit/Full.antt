-- ===== src/Mimo/Transmit/Full.antt =====
-- MATLAB/mimo_driver.py, txrx_uplink: that it returns the frames it was asked for.
use houdini_lab.Mimo.Receive.{recv_all}
use mathlib.Core.Path.{subst}
use houdini_lab.Common.{
  ◌≤◌, ◌≡◌, ◌<◌, some, suc, ◌+◌, true, if◌then◌else◌, ltb, arith, false, zero, ◌/◌, ◌&&◌, length,
  ◌||◌, refl, ◌^◌, not, ap, ◌==◌, sym, ◌∙◌,
}
use houdini_lab.Mimo.Transmit.{
  Matrix, try_verdict, uplink_frames, is_good, Samples, ℕ, Bool, Driver, Option, count_receive,
  List, uplink_bs_sched, n_users, ◌>>=◌,
}
use houdini_lab.Mimo.Frames.{
  verify_signal_quality, all_triggered, received, triggers, zeros, Attempt, Verdict,
}
use houdini_lab.Mimo.Frames.Good.{frames-full}
use mathlib.Core.Option.{some_inj}
use mathlib.Core.Path.{subst}

if-some :
    (c : Bool) (rest : Option Bool)
    → (b : Bool) × (rest ≡ some b)
    → (b : Bool) × ((if c then some false else rest) ≡ some b)
if-some true rest h = (false, refl)
if-some false rest h = h

module _ {np : Samples} where
  -- The boards from j on have no low signal.
  abbrev pub Clear : ℕ → ℕ → ℕ → Bool → Attempt np → ℕ → Type 0
  Clear j len n_r both a n =
      (i : ℕ)
      → j ≤ i
      → i < j + n
      → ((recv_all np (a.reads i) len n_r 1).low_a
          || ((recv_all np (a.reads i) len n_r 1).low_b && both))
        ≡ false

  verify_signal_quality-Clear :
      (n j len n_r : ℕ) (both : Bool) (a : Attempt np)
      → Clear j len n_r both a n
      → verify_signal_quality np n both (received np n j len n_r a) ≡ some true
  unfolding verify_signal_quality received
  verify_signal_quality-Clear zero j len n_r both a h = refl
  verify_signal_quality-Clear (suc n) j len n_r both a h = rw (h j (omega arith) (omega arith)) (
      verify_signal_quality-Clear n (suc j) len n_r both a
        (λ i lo hi. h i (omega arith) (omega arith)))

  verify_signal_quality-total :
      (n j len n_r : ℕ) (both : Bool) (a : Attempt np)
      → (good : Bool) × (verify_signal_quality np n both (received np n j len n_r a) ≡ some good)
  unfolding verify_signal_quality received
  verify_signal_quality-total zero j len n_r both a = (true, refl)
  verify_signal_quality-total (suc n) j len n_r both a =
      if-some _ _ (verify_signal_quality-total n (suc j) len n_r both a)

  -- Each user from u on has counted a trigger.
  abbrev pub Heard : ℕ → Attempt np → ℕ → Type 0
  Heard u a n = (i : ℕ) → u ≤ i → i < u + n → 0 < a.ticks i / 2 ^ 32

  all_triggered-total :
      (n m u : ℕ) (a : Attempt np)
      → n ≤ m
      → (every : Bool) × (all_triggered n (triggers m u a) (zeros n) ≡ some every)
        × (Heard u a n → every ≡ true)
  unfolding all_triggered triggers zeros
  all_triggered-total zero m u a h = (true, refl, λ k. refl)
  all_triggered-total (suc n) zero u a h = absurd (omega arith)
  all_triggered-total (suc n) (suc m) u a h =
      let (rest, e, all) = all_triggered-total n m (suc u) a (omega arith) in
      (
        not (a.ticks u / 2 ^ 32 == 0) && rest,
        rw (e, ◌>>=◌) refl,
        λ k.
            let here = k u (omega arith) (omega arith) in
            let there = all (λ i lo hi. k i (omega arith) (omega arith)) in ground arith,
      )

  is_good-total :
      (l m users len n_r : ℕ) (both : Bool) (a : Attempt np)
      → users ≤ m
      → (v : Bool) × (is_good (suc l) (suc l) m users len n_r both (zeros users) a ≡ some v)
        × (Clear 0 len n_r both a (suc l) → Heard 0 a users → v ≡ true)
  unfolding is_good
  is_good-total l m users len n_r both a enough =
      let (every, f, all) = all_triggered-total users m 0 a enough in
      let (good, e) = verify_signal_quality-total (suc l) 0 len n_r both a in
      (
        every && good,
        rw (e, ◌>>=◌, f, ◌>>=◌) refl,
        λ clear heard.
            let fine = verify_signal_quality-Clear (suc l) 0 len n_r both a clear in
            let up = all heard in let down = some_inj.0 (sym e ∙ fine) in rw (up, down) refl,
      )

module _ {np : Samples} (d : Driver) (x : Matrix np) where
  -- An answer in which no board has a low signal and each user has counted a trigger.
  abbrev pub IsClear : Attempt np → Type 0
  IsClear a =
      Clear 0 x.n_rows (count_receive (uplink_bs_sched (n_users d))) (ltb 1 d.n_bs_chan) a
        d.n_bs_sdrs
      × Heard 0 a (n_users d)

  abbrev verdict_of : List ℕ → Attempt np → Option Verdict
  verdict_of =
      try_verdict d.n_bs_sdrs d.n_bs_sdrs d.n_ues (n_users d) x.n_rows
        (count_receive (uplink_bs_sched (n_users d))) (ltb 1 d.n_bs_chan)

  abbrev IsZero : List ℕ → Type 0
  IsZero old = (old ≡ zeros (n_users d))

  verdict-total :
      (l : ℕ) (a : Attempt np)
      → d.n_bs_sdrs ≡ suc l
      → n_users d ≤ d.n_ues
      → (old : List ℕ) → IsZero old
      → (v : Verdict) × (verdict_of old a ≡ some v)
        × IsZero v.old_triggers
        × (IsClear a → v.good ≡ true)
  unfolding try_verdict
  verdict-total l a some_board enough old zero_old =
      let users = n_users d in
      let n_r = count_receive (uplink_bs_sched users) in
      let both = ltb 1 d.n_bs_chan in
      let (v, e, good) =
        subst
          (λ (n : ℕ).
            (v : Bool) × (is_good n n d.n_ues users x.n_rows n_r both (zeros users) a ≡ some v)
            × (Clear 0 x.n_rows n_r both a n → Heard 0 a users → v ≡ true))
          (sym some_board) (is_good-total l d.n_ues users x.n_rows n_r both a enough) in
      (
        record { old_triggers = old; good = v },
        rw (zero_old, e, ◌>>=◌) refl,
        zero_old,
        λ (clear, heard). good clear heard,
      )

  module _ (l : ℕ) (tries : ℕ → Attempt np) (some_board : d.n_bs_sdrs ≡ suc l)
      (enough : n_users d ≤ d.n_ues) where
    keeps_IsZero :
        (old : List ℕ) (a : Attempt np) (v : Verdict)
        → verdict_of old a ≡ some v
        → IsZero old
        → IsZero v.old_triggers
    keeps_IsZero old a v h zero_old =
        let (w, e, stays, good) = verdict-total l a some_board enough old zero_old in
        subst (λ (y : Verdict). IsZero y.old_triggers) (some_inj.0 (sym e ∙ h)) stays

    -- With a board and no more users than clients, where of any `max_try` answers in a row one is clear
    -- (no board has a low signal, and each user has counted a trigger), the uplink returns all the
    -- frames it was asked for.
    pub uplink_frames-full :
        (num_frames max_try : ℕ)
        → ((k : ℕ) → (i : ℕ) × (i < max_try) × IsClear (tries (k + i)))
        → (found : List (Attempt np)) × (uplink_frames d x num_frames max_try tries ≡ some found)
          × (length found ≡ num_frames)
    unfolding uplink_frames
    uplink_frames-full num_frames max_try clear =
        frames-full verdict_of tries IsZero keeps_IsZero (ltb 0 d.n_ues) num_frames max_try 0
          (zeros (n_users d))
          (record {
            reached = λ old k zero_old.
                let (v, e, _, _) = verdict-total l (tries k) some_board enough old zero_old in
                (v, e);
            good_in = λ k.
                let (i, below, fine) = clear k in
                (
                  i,
                  below,
                  λ old v zero_old h.
                      let (w, e, _, good) =
                        verdict-total l (tries (k + i)) some_board enough old zero_old in
                      ap (λ (y : Verdict). y.good) (some_inj.0 (sym h ∙ e)) ∙ good fine,
                );
          })
          refl
