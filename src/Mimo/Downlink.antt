-- ===== src/Mimo/Downlink.antt =====
-- MATLAB/mimo_driver.py: txrx_downlink, txrx_dl_sound and txrx_refnode.
use houdini_lab.Mimo.Receive.{count_receive}
use houdini_lab.Mimo.Calls.{Slot, r}
use houdini_lab.Mimo.Lifecycle.{Method, data_to_ram, configure, start_stream, correlate}
use houdini_lab.Common.{
  List, ℕ, if◌then◌else◌, Option, Bool, [], ◌==◌, ltb, suc, ◌*◌, true, none, ◌∷◌, some, zero, ◌+◌,
  false, ◌++◌,
}
use houdini_lab.Mimo.Schedule.{
  Pair, sound_ue_sched, downlink_bs_sched_b, sound_bs_sched, downlink_bs_sched, downlink_ue_sched,
  pair_of,
}
use houdini_lab.Mimo.Transmit.{
  Matrix, try_verdict, Result, all_rows, args, first_antenna, antennas, sound_verdict, finished,
  refused,
}
use houdini_lab.Mimo.Samples.{Samples}
use houdini_lab.Common.Options.{◌>>=◌}
use houdini_lab.Mimo.Frames.{frames, Attempt, zeros, received}
use houdini_lab.Mimo.Driver.{ref, bs, ue, each, Driver, Step, each_from, n_users}

module _ {np : Samples} (d : Driver) where
  abbrev pub downlink_samples : Matrix np → ℕ
  downlink_samples x = if x.n_dims == 1 then x.n_rows else x.n_cols

  -- Each board's rows, one for each of its channels.
  unfoldable pub board_rows : Matrix np → ℕ → Method np
  board_rows x i =
      if ltb 1 d.n_bs_chan
      then data_to_ram (x.row (2 * i)) (some (x.row (2 * i + 1))) 0
      else data_to_ram (x.row i) (some (x.row i)) 0

  unfoldable pub downlink_writes : Matrix np → ℕ → List (Step np)
  downlink_writes x pad =
      let n = downlink_samples x in
      each_from d.n_bs_sdrs 0 bs (λ i.
        configure true
          (args (if i == 0 then downlink_bs_sched_b else downlink_bs_sched) n pad false))
      ++ (each d.n_ues ue (configure false (args downlink_ue_sched n pad false))
          ++ (each_from d.n_bs_sdrs 0 bs (board_rows x)
              ++ (each d.n_ues ue start_stream ++ each d.n_ues ue correlate)))

  unfoldable pub downlink_frames : Matrix np → ℕ → ℕ → (ℕ → Attempt np) → Option (List (Attempt np))
  downlink_frames x num_frames max_try tries =
      frames
        (try_verdict (n_users d) d.n_ues d.n_ues (n_users d) (downlink_samples x) 1
          (ltb 1 d.n_ue_chan))
        tries (ltb 0 d.n_bs_sdrs) num_frames max_try 0 (zeros (n_users d))

  unfoldable pub txrx_downlink : Matrix np → ℕ → ℕ → (ℕ → Attempt np) → Option (Result np)
  txrx_downlink x num_frames max_try tries =
      let n = downlink_samples x in
      let run = do
        found ← downlink_frames x num_frames max_try tries
        rows ← all_rows (λ a. first_antenna (n_users d) (received np d.n_ues 0 n 1 a)) found
        some (finished rows 1)
      in if ltb 4096 n then some refused else run

  unfoldable pub sound_writes : Pair → Pair → Matrix np → ℕ → Bool → List (Step np)
  sound_writes q q' x pad python_mode =
      let n = downlink_samples x in
      let board = λ (i : ℕ). if python_mode then data_to_ram (x.row 0) none 0 else board_rows x i in
      each_from d.n_bs_sdrs 0 bs
        (λ i. configure true (args (sound_bs_sched d.n_bs_sdrs q i) n pad (ltb 1 d.n_bs_chan)))
      ++ (each d.n_ues ue (configure false (args (sound_ue_sched d.n_bs_sdrs q') n pad false))
          ++ (each_from d.n_bs_sdrs 0 bs board
              ++ (each d.n_ues ue start_stream ++ each d.n_ues ue correlate)))

  -- `ue_sched` has one schedule, so that a second client raises.
  unfoldable pub txrx_dl_sound : Matrix np → ℕ → ℕ → (ℕ → Attempt np) → Option (Result np)
  txrx_dl_sound x num_frames max_try tries =
      let n = downlink_samples x in
      let run = λ (q' : Pair).
        let n_r = count_receive (sound_ue_sched d.n_bs_sdrs q') in
        if ltb 1 d.n_ues then none else do
          found ←
              frames
                (sound_verdict (n_users d) d.n_ues d.n_ues (n_users d) n n_r (ltb 1 d.n_ue_chan))
                tries (ltb 0 d.n_bs_sdrs) num_frames max_try 0 (zeros (n_users d))
          rows ← all_rows (λ a. first_antenna (n_users d) (received np d.n_ues 0 n n_r a)) found
          some (finished rows n_r)
      in if ltb 4096 n
        then some refused
        else elim (pair_of r d.n_bs_chan) [ none ↦ some refused | some q' ↦ run q' ]

  -- The reference nodes send by one schedule and the boards receive by the other; no frame is
  -- tried again.
  unfoldable pub refnode_writes : List Slot → List Slot → Matrix np → ℕ → Bool → List (Step np)
  refnode_writes bs_sched ref_sched x pad python_mode =
      let sent = λ (i : ℕ). if python_mode then x.column i else x.whole in
      each d.n_bs_sdrs bs (configure true (args bs_sched x.n_rows pad false))
      ++ (each d.n_refs ref (configure true (args ref_sched x.n_rows pad false))
          ++ (each_from d.n_refs 0 ref (λ i. data_to_ram (sent i) (some (sent i)) 0)
              ++ each d.n_bs_sdrs bs start_stream))

  unfoldable pub first_tries : ℕ → ℕ → (ℕ → Attempt np) → List (Attempt np)
  first_tries zero k tries = []
  first_tries (suc n) k tries = tries k ∷ first_tries n (suc k) tries

  unfoldable pub txrx_refnode : List Slot → Matrix np → ℕ → (ℕ → Attempt np) → Option (Result np)
  txrx_refnode bs_sched x num_frames tries =
      let n_r = count_receive bs_sched in
      do
        rows ←
            all_rows
              (λ a.
                antennas (if ltb 1 d.n_bs_chan then 2 else 1)
                  (received np d.n_bs_sdrs 0 x.n_rows n_r a))
              (first_tries num_frames 0 tries)
        some (finished rows n_r)
