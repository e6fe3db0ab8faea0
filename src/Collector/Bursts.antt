-- ===== src/Collector/Bursts.antt =====
-- PYTHON/IrisUtils/csi_lib.py, collectCSI: the slots of the downlink bursts.
use houdini_lab.Common.{ℕ, ◌<◌, ◌*◌, ◌+◌, ◌^◌, ◌≤◌, ◌≡◌, get_or, arith, ◌≢◌, ◌/◌}
use houdini_lab.Collector.Schedule.{
  Csi, num_ants, bs_sched_main, first_burst, second_burst, slot_of,
}
use houdini_lab.Collector.Slots.{get_or-bs_sched_main, bs_slot}
use houdini_lab.Mimo.Calls.{g, t}

slot_of-time : (frame k : ℕ) → k < 65536 → slot_of (frame * 2 ^ 32 + k * 2 ^ 16) ≡ k
slot_of-time frame k h = omega arith

-- In a frame of at most 65536 slots, the burst of a board's first channel falls into a slot in which the
-- board's schedule sends; the burst of its second channel falls into one in which it does not.
pub bursts-slots :
    (c : Csi) (frame_time j : ℕ)
    → 0 < c.sdr_ant
    → j < c.num_bsdrs
    → 4 + num_ants c ≤ 65536
    → (get_or (bs_sched_main c j) (slot_of (first_burst c frame_time j)) g ≡ t)
      × (c.sdr_ant ≡ 2 → get_or (bs_sched_main c j) (slot_of (second_burst c frame_time j)) g ≢ t)
unfolding first_burst second_burst bs_slot
bursts-slots c time j some_ant below small =
    let rest : j * c.sdr_ant + c.sdr_ant ≤ num_ants c = grind arith in
    let frame = time / 2 ^ 32 in
    (
      rw
          (
            slot_of-time frame (2 + j * c.sdr_ant) (omega (arith, rest)),
            get_or-bs_sched_main c j (2 + j * c.sdr_ant),
          )
          (ground arith),
      λ two.
          rw
            (
              slot_of-time frame (3 + j * c.sdr_ant + 1) (omega (arith, rest, two)),
              get_or-bs_sched_main c j (3 + j * c.sdr_ant + 1),
            )
            (λ h. ground arith),
    )
