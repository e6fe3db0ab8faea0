-- ===== src/Sounder/Tests.antt =====
-- PYTHON/DEMOS/SOUNDER_TXRX.py: runs, and the theorems at the defaults and with two data symbols.
use houdini_lab.Mimo.Receive.{count_receive}
use houdini_lab.Sounder.Aligned.{hears, schedules-aligned}
use houdini_lab.Common.Bits.{shift}
use houdini_lab.Common.Int.{pos, negsuc}
use houdini_lab.Mimo.Tdd.{symbol_time}
use houdini_lab.Mimo.Calls.{b, g, r}
use houdini_lab.Sounder.Threads.{
  tx_thread, rx_thread, Receipt, burst_times, Buffers, rx_frames, first_time, dump_reads,
  dump_pilot, dump_symbol,
}
use houdini_lab.Common.{
  Bool, List, ℕ, false, true, ◌≡◌, length, refl, ◌∷◌, ◌*◌, [], map, none, ◌^◌, ◌+◌, drop, arith,
}
use houdini_lab.Sounder.Plan.{
  msched, bsched, siso_sounder, starts, signal_handler, Options, ue_trigger,
}

bsched_lem : bsched false 8 2 ≡ b ∷ g ∷ r ∷ g ∷ g ∷ r ∷ r ∷ g ∷ []
unfolding bsched
bsched_lem = refl

-- In a frame that is too short the schedule is longer than it was asked to be.
bsched_short : bsched true 6 2 ≡ b ∷ g ∷ r ∷ r ∷ r ∷ r ∷ g ∷ []
unfolding bsched
bsched_short = refl

abbrev options : Bool → Options
options loop = record {
  num_samps = 512;
  num_syms = 20;
  tx_sym_num = 0;
  prefix_length = 100;
  postfix_length = 100;
  both_channels = false;
  wait_trigger = false;
  use_trig = false;
  tx_power_loop = loop;
}

siso_sounder_loop : siso_sounder (options true) ≡ none
unfolding siso_sounder ue_trigger symbol_time shift
siso_sounder_loop = refl

starts_lem : starts 3600 80 ≡ true
unfolding starts
starts_lem = refl

signal_handler_lem : length (signal_handler true) ≡ 8
unfolding signal_handler
signal_handler_lem = refl

abbrev sent : List Receipt
sent = record { ret = pos 4; time = 3 * 2 ^ 32 + 5 } ∷ record { ret = negsuc 0; time = 9 } ∷ []

tx_thread_lem : tx_thread 2 5 sent ≡ (3 * 2 ^ 32 + 5 * 65536) ∷ (3 * 2 ^ 32 + 6 * 65536) ∷ []
unfolding tx_thread burst_times first_time
tx_thread_lem = refl

abbrev read : ℕ → Buffers
read i = record { wave_a = i ∷ i ∷ []; wave_b = [] }

rx_thread_lem : (rx_thread false 2 read 2).samples_a ≡ 1 ∷ 1 ∷ 2 ∷ 2 ∷ 4 ∷ 4 ∷ 5 ∷ 5 ∷ []
unfolding rx_thread rx_frames dump_reads dump_pilot dump_symbol
rx_thread_lem = refl

schedules-aligned_example :
    (bsched true 20 3 ≡ b ∷ map hears (drop 1 (msched true 20 3)))
    × (count_receive (bsched true 20 3) ≡ 5)
    × (length (bsched true 20 3) ≡ 20)
    × (length (msched true 20 3) ≡ 20)
schedules-aligned_example = schedules-aligned true 20 3 (omega arith)
