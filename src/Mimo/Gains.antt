-- ===== src/Mimo/Gains.antt =====
-- MATLAB/mimo_driver.py, set_opt_gains: the search for the gains with the most beacons.
pub mod Chosen
use houdini_lab.Mimo.Calls.{b, g}
use houdini_lab.Mimo.Transmit.{args}
use houdini_lab.Mimo.Samples.{Samples}
use houdini_lab.Mimo.Driver.{Driver, Step, each, bs_trigger, ue, bs, n_users, each_from}
use houdini_lab.Common.Int.{ℤ, negsuc, pos, sub_ℕ, leb_ℤ}
use houdini_lab.Common.{
  ℕ, List, if◌then◌else◌, [], ◌∷◌, Bool, not, Option, suc, map, false, ◌==◌, ◌&&◌, ◌+◌, ◌++◌, none,
  some, zero, true, drop,
}
use houdini_lab.Common.Options.{◌>>=◌}
use houdini_lab.Mimo.Lifecycle.{trigger, tx_gain_of, rx_gain_of, configure, start_stream, correlate}

pub record Combination : Type 0 where
  pub tx_gain : ℕ
  pub rx_gain : ℕ

-- `range(50, 81, 2)`, from `lo` on.
unfoldable pub even_gains : ℕ → ℕ → List ℕ
even_gains zero lo = []
even_gains (suc n) lo = lo ∷ even_gains n (lo + 2)

abbrev pub gains : List ℕ
gains = even_gains 16 50

-- The two loops: the gain of the receivers is the outer one.
unfoldable pub combinations : List ℕ → List ℕ → List Combination
combinations txs [] = []
combinations txs (rx ∷ rxs) =
    map (λ tx. record { tx_gain = tx; rx_gain = rx }) txs ++ combinations txs rxs

-- What one combination gave: the client's count less the count before.
pub record Reading : Type 0 where
  pub combo : Combination
  pub new_triggers : ℤ

-- `counts k` is the client's count after the k-th combination.
unfoldable pub readings : List Combination → (ℕ → ℕ) → ℕ → ℕ → List Reading
readings [] counts k old = []
readings (c ∷ cs) counts k old =
    record { combo = c; new_triggers = sub_ℕ (counts k) old }
    ∷ readings cs counts (suc k) (counts k)

pub record Best : Type 0 where
  pub txg : ℤ
  pub rxg : ℤ
  pub current_max : ℤ
  pub valid : Bool

abbrev pub no_gains : Best
no_gains = record { txg = negsuc 998; rxg = negsuc 998; current_max = pos 0; valid = false }

abbrev pub is_zero : ℤ → Bool
is_zero (pos n) = n == 0
is_zero (negsuc n) = false

unfoldable pub better : Reading → Best → Best
better r best =
    if not (is_zero r.new_triggers) && leb_ℤ best.current_max r.new_triggers
    then record {
      txg = pos r.combo.tx_gain;
      rxg = pos r.combo.rx_gain;
      current_max = r.new_triggers;
      valid = true;
    }
    else best

unfoldable pub pick : List Reading → Best → Best
pick [] best = best
pick (r ∷ rs) best = pick rs (better r best)

-- The gains of the last combination.
unfoldable pub last_gains : List Combination → Best → Best
last_gains [] best = best
last_gains (c ∷ cs) best =
    last_gains cs (record best { txg = pos c.tx_gain; rxg = pos c.rx_gain; valid = true })

-- With no frame `triggers` has no value; with several users the test of an array raises. With none, no
-- element of the empty array is 0 and its sum is 0, so each combination but the first, where the sum is
-- an empty array and false, is as good as the ones before.
unfoldable pub set_opt_gains : Driver → ℕ → (ℕ → ℕ) → Option Best
set_opt_gains d num_frames counts =
    if num_frames == 0
    then none
    else if n_users d == 0
    then some (last_gains (drop 1 (combinations gains gains)) no_gains)
    else if n_users d == 1
    then some (pick (readings (combinations gains gains) counts 0 0) no_gains)
    else none

module _ {np : Samples} (d : Driver) where
  unfoldable pub times : ℕ → List (Step np) → List (Step np)
  times zero xs = []
  times (suc n) xs = xs ++ times n xs

  unfoldable pub try_tx : ℕ → List (Step np) → List ℕ → List (Step np)
  try_tx num_frames trig [] = []
  try_tx num_frames trig (tx ∷ txs) =
      each d.n_ues ue (tx_gain_of tx) ++ (times num_frames trig ++ try_tx num_frames trig txs)

  unfoldable pub try_gains : ℕ → List (Step np) → List ℕ → List (Step np)
  try_gains num_frames trig [] = []
  try_gains num_frames trig (rx ∷ rxs) =
      each d.n_bs_sdrs bs (rx_gain_of rx)
      ++ (try_tx num_frames trig gains ++ try_gains num_frames trig rxs)

  -- What the search calls on the radios, up to its end.
  unfoldable pub gain_steps : ℕ → Option (List (Step np))
  gain_steps num_frames = do
    trig ← bs_trigger d
    some (
        each_from d.n_bs_sdrs 0 bs (λ i.
          configure true
            (args (if i == 0 then b ∷ g ∷ g ∷ g ∷ [] else g ∷ g ∷ g ∷ g ∷ []) 4096 0 false))
        ++ (each d.n_ues ue (configure false (args (g ∷ g ∷ g ∷ g ∷ []) 4096 0 false))
            ++ (each d.n_ues ue start_stream
                ++ (each d.n_ues ue correlate ++ try_gains num_frames trig gains))))
