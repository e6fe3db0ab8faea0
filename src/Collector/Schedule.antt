-- ===== src/Collector/Schedule.antt =====
-- PYTHON/IrisUtils/csi_lib.py, class CSI: the schedules that setup writes, and the times at which
-- collectCSI sends the downlink pilots.
use houdini_lab.Common.{
  ℕ, ◌*◌, List, ◌/◌, ◌∷◌, ◌^◌, [], replicate, ◌+◌, suc, ◌%◌, ◌++◌, if◌then◌else◌, ◌-◌, ◌==◌, zero,
}
use houdini_lab.Mimo.Calls.{Slot, g, p, r, t}

-- What the constructor counts.
pub record Csi : Type 0 where
  pub num_bsdrs : ℕ
  pub num_csdrs : ℕ
  pub sdr_ant : ℕ

abbrev pub num_ants : Csi → ℕ
num_ants c = c.sdr_ant * c.num_bsdrs

-- The schedule of board i of the base station.
unfoldable pub bs_sched_main : Csi → ℕ → List Slot
bs_sched_main c i =
    p ∷ g ∷ replicate (i * c.sdr_ant) g
    ++ (replicate c.sdr_ant t
        ++ (replicate (num_ants c - (i + 1) * c.sdr_ant) g
            ++ (g ∷ replicate c.num_csdrs r ++ (g ∷ []))))

-- The schedule of client i.
unfoldable pub cl_sched_main : Csi → ℕ → List Slot
cl_sched_main c i =
    g ∷ g ∷ replicate c.num_bsdrs r
    ++ (g ∷ replicate i g ++ (p ∷ replicate (c.num_csdrs - (i + 1)) g ++ (g ∷ [])))

-- The times of the bursts of board r in a frame, the first channel's and the second one's.
unfoldable pub first_burst : Csi → ℕ → ℕ → ℕ
first_burst c frame_time i = frame_time / 2 ^ 32 * 2 ^ 32 + (2 + i * c.sdr_ant) * 2 ^ 16

unfoldable pub second_burst : Csi → ℕ → ℕ → ℕ
second_burst c frame_time i = frame_time / 2 ^ 32 * 2 ^ 32 + (3 + i * c.sdr_ant + 1) * 2 ^ 16

-- The bursts of all boards from board i on.
unfoldable pub bursts : Csi → ℕ → ℕ → ℕ → List ℕ
unfolding first_burst second_burst
bursts c frame_time zero i = []
bursts c frame_time (suc n) i =
    first_burst c frame_time i ∷ (if c.sdr_ant == 2 then second_burst c frame_time i ∷ [] else [])
    ++ bursts c frame_time n (suc i)

-- The slot of a time.
abbrev pub slot_of : ℕ → ℕ
slot_of time = time / 2 ^ 16 % 2 ^ 16
