-- ===== src/Mimo/Schedule.antt =====
-- MATLAB/mimo_driver.py: the schedules of txrx_uplink, txrx_downlink and txrx_dl_sound.
pub mod Aligned
pub mod Sounded
use houdini_lab.Common.{
  ℕ, zero, suc, ◌+◌, ◌*◌, Bool, true, false, Option, none, some, List, [], ◌∷◌, ◌++◌, ltb, ◌==◌,
  if◌then◌else◌, take, drop, replicate,
}
use houdini_lab.Mimo.Calls.{Slot, b, g, p, r}

-- `n` times two symbols.
unfoldable pub pairs : ℕ → Slot → Slot → List Slot
pairs zero x y = []
pairs (suc n) x y = x ∷ y ∷ pairs n x y

-- `xs[2 * i: 2 * i + 2] = x, y`
unfoldable pub put_pair : ℕ → Slot → Slot → List Slot → List Slot
put_pair i x y xs = take (2 * i) xs ++ (x ∷ y ∷ drop (2 * i + 2) xs)

-- The part in which several users send at once.
unfoldable pub shared : ℕ → Slot → List Slot
shared n x = if ltb 1 n then x ∷ g ∷ [] else []

-- The base station that sends the beacon, and the others.
unfoldable pub uplink_bs_sched_b : ℕ → List Slot
unfolding pairs shared
uplink_bs_sched_b n = b ∷ g ∷ (pairs n r g ++ shared n r)

unfoldable pub uplink_bs_sched : ℕ → List Slot
unfolding pairs shared
uplink_bs_sched n = g ∷ g ∷ (pairs n r g ++ shared n r)

unfoldable pub uplink_ue_sched : ℕ → ℕ → List Slot
unfolding put_pair shared
uplink_ue_sched n u = g ∷ g ∷ (put_pair u p g (replicate (2 * n) g) ++ shared n p)

abbrev pub downlink_bs_sched_b : List Slot
downlink_bs_sched_b = b ∷ g ∷ p ∷ g ∷ []

abbrev pub downlink_bs_sched : List Slot
downlink_bs_sched = g ∷ g ∷ p ∷ g ∷ []

abbrev pub downlink_ue_sched : List Slot
downlink_ue_sched = g ∷ g ∷ r ∷ g ∷ []

-- The symbols of a board with one or two channels; another number of channels ends the method.
pub record Pair : Type 0 where
  pub first : Slot
  pub second : Slot

unfoldable pub pair_of : Slot → ℕ → Option Pair
pair_of x n_bs_chan =
    if n_bs_chan == 1
    then some (record { first = x; second = g })
    else if n_bs_chan == 2
    then some (record { first = x; second = x })
    else none

unfoldable pub sound_bs_sched : ℕ → Pair → ℕ → List Slot
unfolding put_pair
sound_bs_sched n q j =
    (if j == 0 then b else g) ∷ g ∷ put_pair j q.first q.second (replicate (2 * n) g)

-- `sound_tmp_ue` keeps the pairs of the boards before.
unfoldable pub sound_tmp_ue : ℕ → Pair → ℕ → List Slot
unfolding put_pair
sound_tmp_ue n q zero = replicate (2 * n) g
sound_tmp_ue n q (suc j) = put_pair j q.first q.second (sound_tmp_ue n q j)

unfoldable pub sound_ue_sched : ℕ → Pair → List Slot
unfolding sound_tmp_ue
sound_ue_sched n q = g ∷ g ∷ sound_tmp_ue n q n
