-- ===== src/Collector/Tests.antt =====
-- PYTHON/IrisUtils/csi_lib.py: runs with two and three boards.
use houdini_lab.Calibration.Votes.{writes_of, incr_time}
use houdini_lab.Collector.Delays.{Round, sample_cal, forward, node_writes, node_synced}
use houdini_lab.Collector.Schedule.{
  bs_sched_main, cl_sched_main, bursts, Csi, slot_of, first_burst, second_burst,
}
use houdini_lab.Common.{
  ℕ, get_or, ◌≡◌, map, ◌≢◌, ◌∷◌, [], ◌*◌, refl, arith, ◌^◌, true, ◌+◌, some, false, replicate,
}
use houdini_lab.Collector.Slots.{pilot-unheard}
use houdini_lab.Collector.Bursts.{bursts-slots}
use houdini_lab.Collector.Synced.{sample_cal-converges, moved_all}
use houdini_lab.Mimo.Calls.{g, p, r, t}

abbrev with_antennas : ℕ → Csi
with_antennas n = record { num_bsdrs = 3; num_csdrs = 2; sdr_ant = n }

bs_sched_main_lem :
    bs_sched_main (with_antennas 2) 1 ≡ p ∷ g ∷ g ∷ g ∷ t ∷ t ∷ g ∷ g ∷ g ∷ r ∷ r ∷ g ∷ []
unfolding bs_sched_main
bs_sched_main_lem = refl

cl_sched_main_lem : cl_sched_main (with_antennas 2) 1 ≡ g ∷ g ∷ r ∷ r ∷ r ∷ g ∷ g ∷ p ∷ g ∷ []
unfolding cl_sched_main
cl_sched_main_lem = refl

bursts_lem :
    map slot_of (bursts (with_antennas 2) (7 * 2 ^ 32 + 5) 3 0) ≡ 2 ∷ 4 ∷ 4 ∷ 6 ∷ 6 ∷ 8 ∷ []
unfolding bursts
bursts_lem = refl

client_sends : get_or (cl_sched_main (with_antennas 2) 1) 7 g ≡ p
unfolding cl_sched_main
client_sends = refl

pilot-unheard_example : get_or (bs_sched_main (with_antennas 2) 2) 7 g ≢ r
pilot-unheard_example =
    pilot-unheard (with_antennas 2) 1 2 7 refl (omega arith) (omega arith) client_sends

bursts-slots_example :
    let c = with_antennas 2 in
    (get_or (bs_sched_main c 1) (slot_of (first_burst c 12 1)) g ≡ t)
    × (c.sdr_ant ≡ 2 → get_or (bs_sched_main c 1) (slot_of (second_burst c 12 1)) g ≢ t)
bursts-slots_example = bursts-slots (with_antennas 2) 12 1 (omega arith) (omega arith) (omega arith)

sample_cal-converges_example :
    (first : Round) × (sample_cal (0 ∷ 300 ∷ 297 ∷ 302 ∷ []) 0 0 true ≡ some first)
    × (sample_cal (moved_all first.writes (0 ∷ 300 ∷ 297 ∷ 302 ∷ [])) 0 0 true
        ≡ some (record { writes = replicate 4 []; synced = true }))
sample_cal-converges_example =
    sample_cal-converges (0 ∷ 300 ∷ 297 ∷ 302 ∷ []) 0 0 300 refl (omega arith)
      ((λ s. cc), ((λ s. omega arith), ((λ s. omega arith), ((λ s. omega arith), tt))))

-- The first write of the third node, and none to a node that was not found.
sample_cal_lem :
    sample_cal (1 ∷ 3 ∷ 2 ∷ 0 ∷ []) 0 0 true
    ≡ some (record { writes = [] ∷ [] ∷ (incr_time ∷ []) ∷ [] ∷ []; synced = false })
unfolding sample_cal forward node_writes node_synced writes_of
sample_cal_lem = refl
