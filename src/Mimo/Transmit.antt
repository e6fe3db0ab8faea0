-- ===== src/Mimo/Transmit.antt =====
-- MATLAB/mimo_driver.py: txrx_uplink, and what the transmissions share.
pub mod Good
pub mod Rows
pub mod Full
pub mod Raises
use houdini_lab.Mimo.Tdd.{TddArgs}
use houdini_lab.Mimo.Receive.{Received, count_receive}
use houdini_lab.Mimo.Schedule.{
  Pair, uplink_bs_sched, sound_ue_sched, pair_of, uplink_bs_sched_b, downlink_bs_sched_b,
  sound_bs_sched, downlink_bs_sched, uplink_ue_sched, downlink_ue_sched,
}
use houdini_lab.Mimo.Lifecycle.{Method, data_to_ram, configure, start_stream, correlate}
use houdini_lab.Mimo.Calls.{Slot, r}
use houdini_lab.Mimo.Driver.{Driver, Step, each_from, n_users, each, bs, ue, ref}
use houdini_lab.Common.{
  ℕ, List, Option, some, Bool, if◌then◌else◌, ◌∷◌, ltb, ◌==◌, [], none, ◌||◌, ◌*◌, suc, not, ◌+◌,
  zero, ◌&&◌, true, false, ◌++◌,
}
use houdini_lab.Mimo.Samples.{Samples}
use houdini_lab.Common.Options.{◌>>=◌}
use houdini_lab.Mimo.Frames.{
  frames, all_triggered, received, Attempt, Verdict, verify_signal_quality, zeros, triggers,
}

-- The data to send, with the rows and columns that are read: `column i` is `tx_data_mat[:, i]`, `row i` is `tx_data_mat[i, :]`.
pub record Matrix (np : Samples) : Type 0 where
  pub n_dims : ℕ
  pub n_rows : ℕ
  pub n_cols : ℕ
  pub column : ℕ → List np.Sample
  pub row : ℕ → List np.Sample
  pub whole : List np.Sample

-- What a method returns: nothing (after a message), or the received frames and the symbols in each.
pub data Result (np : Samples) : Type 0 where
  refused : Result np
  finished : List (List (List np.Sample)) → ℕ → Result np

unfoldable pub all_rows : {A B : Type 0} → (A → Option B) → List A → Option (List B)
all_rows f [] = some []
all_rows f (a ∷ xs) = do y ← f a; ys ← all_rows f xs; some (y ∷ ys)

abbrev pub args : List Slot → ℕ → ℕ → Bool → TddArgs
args sched n_samps pad dual = record {
  schedule = sched;
  samples = n_samps;
  prefix = pad;
  frames = 1;
  dual = dual;
}

module _ {np : Samples} where
  -- The antennas of the boards from j on; a board gives its channels A and B.
  unfoldable pub antennas : ℕ → List (Received np) → Option (List (List np.Sample))
  antennas n_chan [] = some []
  antennas n_chan (x ∷ rs) = do
    rest ← antennas n_chan rs
    if n_chan == 1
        then some (x.frames_a ∷ rest)
        else if n_chan == 2
        then some (x.frames_a ∷ x.frames_b ∷ rest)
        else none

  -- `np.reshape(np.array(rx_data_frame[0][0]), (users, numRxSyms, n_samps))` takes the size of one user.
  unfoldable pub first_antenna : ℕ → List (Received np) → Option (List (List np.Sample))
  first_antenna users [] = none
  first_antenna users (x ∷ rs) = if users == 1 then some (x.frames_a ∷ []) else none

  -- Whether a try is good: no low signal at `n_sdrs` of the listening radios, and a new trigger at each
  -- user. With no radio to listen to, the slice of the received data raises.
  unfoldable pub is_good :
      (n_sdrs listening n_clients users len n_r : ℕ) (both : Bool)
      → List ℕ
      → Attempt np
      → Option Bool
  is_good n_sdrs zero n_clients users len n_r both old a = none
  is_good n_sdrs (suc listening) n_clients users len n_r both old a = do
    good ← verify_signal_quality np n_sdrs both (received np (suc listening) 0 len n_r a)
    every ← all_triggered users (triggers n_clients 0 a) old
    some (every && good)

  -- The old counts stay.
  unfoldable pub try_verdict :
      (n_sdrs listening n_clients users len n_r : ℕ) (both : Bool)
      → List ℕ
      → Attempt np
      → Option Verdict
  try_verdict n_sdrs listening n_clients users len n_r both old a = do
    good ← is_good n_sdrs listening n_clients users len n_r both old a
    some (record { old_triggers = old; good = good })

  -- The counts of this try are the old ones of the next.
  unfoldable pub sound_verdict :
      (n_sdrs listening n_clients users len n_r : ℕ) (both : Bool)
      → List ℕ
      → Attempt np
      → Option Verdict
  sound_verdict n_sdrs listening n_clients users len n_r both old a = do
    good ← is_good n_sdrs listening n_clients users len n_r both old a
    some (record { old_triggers = triggers n_clients 0 a; good = good })

module _ {np : Samples} (d : Driver) where
  unfoldable pub uplink_writes : Matrix np → ℕ → Bool → List (Step np)
  uplink_writes x pad python_mode =
      let n = if ltb 1 x.n_dims then x.n_cols else 1 in
      let client = λ (i : ℕ). if python_mode || ltb 1 (n_users d) then x.column i else x.whole in
      each_from d.n_bs_sdrs 0 bs (λ i.
        configure true
          (args (if i == 0 then uplink_bs_sched_b n else uplink_bs_sched n) x.n_rows pad false))
      ++ (each_from d.n_ues 0 ue
            (λ i. configure false (args (uplink_ue_sched n i) x.n_rows pad false))
          ++ (each_from d.n_ues 0 ue (λ i. data_to_ram (client i) none 0)
              ++ (each d.n_bs_sdrs bs start_stream ++ each d.n_ues ue correlate)))

  unfoldable pub uplink_frames : Matrix np → ℕ → ℕ → (ℕ → Attempt np) → Option (List (Attempt np))
  uplink_frames x num_frames max_try tries =
      let n_r = count_receive (uplink_bs_sched (n_users d)) in
      frames
        (try_verdict d.n_bs_sdrs d.n_bs_sdrs d.n_ues (n_users d) x.n_rows n_r (ltb 1 d.n_bs_chan))
        tries (ltb 0 d.n_ues) num_frames max_try 0 (zeros (n_users d))

  -- A column of data with one dimension, which the Python mode takes for each client, raises.
  unfoldable pub txrx_uplink : Matrix np → Bool → ℕ → ℕ → (ℕ → Attempt np) → Option (Result np)
  txrx_uplink x python_mode num_frames max_try tries =
      let n = if ltb 1 x.n_dims then x.n_cols else 1 in
      let n_r = count_receive (uplink_bs_sched n) in
      let run = do
        found ← uplink_frames x num_frames max_try tries
        rows ← all_rows (λ a. antennas d.n_bs_chan (received np d.n_bs_sdrs 0 x.n_rows n_r a)) found
        some (finished rows n_r)
      in if not (n == n_users d)
        then some refused
        else if ltb 4096 x.n_rows
        then some refused
        else if python_mode && (not (ltb 1 x.n_dims) && ltb 0 d.n_ues)
        then none
        else run
