-- ===== src/Mimo/Transmit/Raises.antt =====
-- MATLAB/mimo_driver.py, txrx_uplink: clients of several channels.
use houdini_lab.Common.{
  ◌<◌, ◌≡◌, Option, ltb, none, ◌≤◌, arith, suc, zero, Option-cases, refl, ==_iff, inl, false, inr,
  Bool-cases, ◌&&◌, not,
}
use houdini_lab.Mimo.Transmit.{
  Matrix, try_verdict, uplink_frames, is_good, txrx_uplink, Samples, ℕ, Driver, Bool, List,
  if◌then◌else◌, n_users, count_receive, uplink_bs_sched,
}
use houdini_lab.Mimo.Frames.{
  verify_signal_quality, all_triggered, received, triggers, zeros, Attempt, Verdict,
}
use houdini_lab.Mimo.Frames.Good.{frames-none}
use houdini_lab.Common.Options.{◌>>=◌}

module _ {np : Samples} where
  -- More users than clients: some client is not there.
  all_triggered-short :
      (n m u : ℕ) (a : Attempt np) → m < n → all_triggered n (triggers m u a) (zeros n) ≡ none
  unfolding all_triggered triggers zeros
  all_triggered-short zero m u a h = absurd (omega arith)
  all_triggered-short (suc n) zero u a h = refl
  all_triggered-short (suc n) (suc m) u a h =
      rw (all_triggered-short n m (suc u) a (omega arith), ◌>>=◌) refl

is_good-none :
    {np : Samples} (n l c users len n_r : ℕ) (both : Bool) (a : Attempt np)
    → c < users
    → is_good n l c users len n_r both (zeros users) a ≡ none
unfolding is_good
is_good-none n zero c users len n_r both a h = refl
is_good-none {np} n (suc l) c users len n_r both a h =
    elim (Option-cases (verify_signal_quality np n both (received np (suc l) 0 len n_r a))) [
      | inl e ↦ rw (e, ◌>>=◌) refl
      | inr (clear, e) ↦ rw (e, ◌>>=◌, all_triggered-short users c 0 a h, ◌>>=◌) refl
    ]

module _ {np : Samples} (d : Driver) (x : Matrix np) where
  abbrev verdict_of : List ℕ → Attempt np → Option Verdict
  verdict_of =
      try_verdict d.n_bs_sdrs d.n_bs_sdrs d.n_ues (n_users d) x.n_rows
        (count_receive (uplink_bs_sched (n_users d))) (ltb 1 d.n_bs_chan)

  verdict-none : (a : Attempt np) → d.n_ues < n_users d → verdict_of (zeros (n_users d)) a ≡ none
  unfolding try_verdict
  verdict-none a h =
      rw
        (
          is_good-none d.n_bs_sdrs d.n_bs_sdrs d.n_ues (n_users d) x.n_rows
              (count_receive (uplink_bs_sched (n_users d))) (ltb 1 d.n_bs_chan) a h,
          ◌>>=◌,
        )
        refl

  -- With more users than clients, as with clients of two channels, every uplink of a frame whose data
  -- fits and that is tried at all ends with an exception: the counts of the triggers are those of the
  -- clients.
  pub txrx_uplink-raises :
      (python_mode : Bool) (num_frames max_try : ℕ) (tries : ℕ → Attempt np)
      → 0 < max_try
      → (if ltb 1 x.n_dims then x.n_cols else 1) ≡ n_users d
      → x.n_rows ≤ 4096
      → d.n_ues < n_users d
      → txrx_uplink d x python_mode (suc num_frames) max_try tries ≡ none
  unfolding txrx_uplink uplink_frames
  txrx_uplink-raises python_mode num_frames max_try tries some_try size rows h =
      let stuck =
        frames-none verdict_of tries (ltb 0 d.n_ues) num_frames max_try 0 (zeros (n_users d))
          some_try (verdict-none (tries 0) h) in
      let fits = (==_iff (if ltb 1 x.n_dims then x.n_cols else 1) (n_users d)).1 size in
      let small : ltb 4096 x.n_rows ≡ false = ground arith in
      elim (Bool-cases (python_mode && (not (ltb 1 x.n_dims) && ltb 0 d.n_ues))) [
        | inl raises ↦ rw (fits, small, raises) refl
        | inr goes_on ↦ rw (fits, small, goes_on, stuck, ◌>>=◌) refl
      ]
