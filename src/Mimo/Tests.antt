-- ===== src/Mimo/Tests.antt =====
-- MATLAB/iris_py.py and MATLAB/mimo_driver.py: runs on samples that are numbers, where a wave is low
-- if it has no samples but 0.
use houdini_lab.Mimo.Transmit.Raises.{txrx_uplink-raises}
use houdini_lab.Mimo.Transmit.Full.{IsClear, uplink_frames-full}
use houdini_lab.Mimo.Tdd.Start.{config_sdr_tdd-client}
use houdini_lab.Mimo.Schedule.Sounded.{sound-aligned}
use houdini_lab.Mimo.Schedule.Aligned.{board_sched, uplink-aligned}
use houdini_lab.Mimo.Gains.Chosen.{Counts, IsFrom, set_opt_gains-best}
use houdini_lab.Mimo.Lifecycle.{last_calls, Method, run_methods, close-final}
use houdini_lab.Mimo.Transmit.Rows.{IsHeard, txrx_uplink-IsGood}
use houdini_lab.Mimo.Receive.Complete.{waves, recv_all_complete}
use houdini_lab.Common.Int.{pos, negsuc, ◌≤ℤ◌}
use houdini_lab.Mimo.Frames.{
  Attempt, frames, frame, try_frame, verify_signal_quality, received, all_triggered, triggers,
  zeros,
}
use houdini_lab.Mimo.Driver.{Driver}
use houdini_lab.Common.Bits.{shift}
use houdini_lab.Mimo.Gains.{Best, set_opt_gains, readings, combinations, gains}
use houdini_lab.Mimo.Transmit.{
  txrx_uplink, uplink_frames, Matrix, is_good, try_verdict, all_rows, antennas, finished,
}
use houdini_lab.Mimo.Schedule.{
  uplink_ue_sched, pair_of, uplink_bs_sched, Pair, sound_ue_sched, sound_bs_sched,
}
use houdini_lab.Mimo.Receive.{
  recv_all, Read, recv_frames, recv_symbols, keep, store, bad, count_receive,
}
use houdini_lab.Mimo.Tdd.{TddArgs, symbol_time, config_sdr_tdd}
use houdini_lab.Mimo.Calls.{
  Iris, Slot, calls_of, g, set_sample_rate, done, r, tx, p, set_bandwidth, write_setting, set_gain,
  tdd_config, set_rf, client, set_bb, corr_config, rx, write_registers, set_antenna_trx, corr_coe,
  set_dc_offset_mode, set_trigger_time, tx_sw_delay, tdd_mode,
}
use houdini_lab.Mimo.Iris.{Settings, set_up_channel, close}
use houdini_lab.Common.{
  List, ℕ, get_or, All, Bool, true, ◌≡◌, if◌then◌else◌, ◌∷◌, some, ◌==◌, false, none, ◌&&◌, [],
  refl, ◌+◌, ◌↔◌, ◌^◌, ◌<◌, ◌≤◌, arith, ◌*◌, ◌/◌, ◌%◌, length,
}
use houdini_lab.Mimo.Samples.{Samples}

abbrev all_null : List ℕ → Bool
all_null [] = true
all_null (x ∷ xs) = (x == 0) && all_null xs

abbrev numbers : Samples
numbers = record { Sample = ℕ; null = 0; conj = λ x. x; to_word = λ order x. x; is_low = all_null }

abbrev settings : Settings
settings = record {
  has_serial = true;
  tx_freq = some 3600;
  rx_freq = some 3600;
  tx_gain = some 40;
  rx_gain = some 20;
  bw = none;
  rate = some 5;
  samples = none;
  both_channels = true;
  agc = false;
  offset = 235;
}

abbrev radio : Iris
radio = record {
  is_open = true;
  sample_rate = some 5;
  trig_offset = 235;
  n_samp = none;
  agc_en = false;
  max_frames = 1;
  tdd_sched = none;
  tx_stream = false;
  rx_stream = true;
}

-- The truth of `both_channels` of the driver, a text such as "A", leaves channel 1 enabled.
init_lem :
    calls_of (set_up_channel settings 1 radio)
    ≡ set_sample_rate tx 1 20
      ∷ set_bandwidth tx 1 50
      ∷ set_gain tx 1 40
      ∷ set_rf tx 1 (pos 14385)
      ∷ set_bb tx 1 15
      ∷ set_sample_rate rx 1 20
      ∷ set_bandwidth rx 1 50
      ∷ set_gain rx 1 20
      ∷ set_rf rx 1 (pos 14385)
      ∷ set_bb rx 1 15
      ∷ set_antenna_trx 1
      ∷ set_gain rx 1 20
      ∷ set_dc_offset_mode 1
      ∷ []
unfolding set_up_channel
init_lem = refl

abbrev client_args : TddArgs
client_args = record {
  schedule = g ∷ g ∷ p ∷ g ∷ [];
  samples = 100;
  prefix = 0;
  frames = 1;
  dual = false;
}

config_sdr_tdd-client_example :
    (w : ℕ) × (calls_of (config_sdr_tdd numbers (1 ∷ 2 ∷ []) false client_args radio)
      ≡ write_setting (tdd_config (client 100 (g ∷ g ∷ p ∷ g ∷ [])))
        ∷ write_setting (corr_config 1)
        ∷ write_registers corr_coe 0 (1 ∷ 2 ∷ [])
        ∷ set_trigger_time w 5
        ∷ write_setting (tx_sw_delay 30)
        ∷ write_setting tdd_mode
        ∷ [])
    × (w / 65536 * 100 + w % 65536 ≡ 237)
    × (w % 65536 < 100)
config_sdr_tdd-client_example =
    config_sdr_tdd-client numbers (1 ∷ 2 ∷ []) client_args radio 5 refl refl (omega arith)
      (omega arith)

symbol_time_lem : symbol_time 237 100 ≡ some 131109
unfolding symbol_time shift
symbol_time_lem = refl

close-final_example :
    (s' : Iris) × (close radio ≡ done tt s' (last_calls numbers [] radio))
    × ((ms : List (Method numbers)) → calls_of (run_methods numbers [] ms s') ≡ [])
close-final_example = close-final numbers [] radio refl

-- Read i of two samples.
abbrev fine_read : ℕ → Read numbers
fine_read i = record { ret = pos 2; wave_a = (i + 1) ∷ (i + 2) ∷ []; wave_b = 5 ∷ 5 ∷ [] }

abbrev short_read : ℕ → Read numbers
short_read i = record {
  ret = if i == 1 then negsuc 0 else pos 2;
  wave_a = 7 ∷ 8 ∷ [];
  wave_b = 5 ∷ 5 ∷ [];
}

recv_all_lem : (recv_all numbers fine_read 2 2 2).frames_a ≡ 1 ∷ 2 ∷ 2 ∷ 3 ∷ 3 ∷ 4 ∷ 4 ∷ 5 ∷ []
unfolding recv_all recv_frames recv_symbols keep store
recv_all_lem = refl

-- A short read leaves its frame; the next frame goes on.
recv_all_short : (recv_all numbers short_read 2 2 2).frames_a ≡ 7 ∷ 8 ∷ 0 ∷ 0 ∷ 7 ∷ 8 ∷ 7 ∷ 8 ∷ []
unfolding recv_all recv_frames recv_symbols keep store bad
recv_all_short = refl

fine_read-low : (recv_all numbers fine_read 2 2 2).low_a ≡ false
unfolding recv_all recv_frames recv_symbols keep store
fine_read-low = refl

recv_all_complete_example :
    (recv_all numbers fine_read 2 2 2).frames_a ≡ waves numbers (λ i. (fine_read i).wave_a) 4 0
recv_all_complete_example = recv_all_complete numbers fine_read 2 2 2 (λ i e. refl) fine_read-low

uplink_lem : uplink_ue_sched 3 1 ≡ g ∷ g ∷ g ∷ g ∷ p ∷ g ∷ g ∷ g ∷ p ∷ g ∷ []
unfolding uplink_ue_sched
uplink_lem = refl

uplink-aligned_example :
    ((get_or (board_sched 3 0) 4 g ≡ r)
      ↔ ((u : ℕ) × (u < 3) × (get_or (uplink_ue_sched 3 u) 4 g ≡ p)))
    × ((u v : ℕ)
        → u < 3
        → v < 3
        → 4 < 2 + 2 * 3
        → get_or (uplink_ue_sched 3 u) 4 g ≡ p
        → get_or (uplink_ue_sched 3 v) 4 g ≡ p
        → u ≡ v)
uplink-aligned_example = uplink-aligned 3 0 4

abbrev own : Slot → Pair
own x = record { first = x; second = x }

sound-aligned_example :
    ((get_or (sound_ue_sched 3 (own r)) 5 g ≡ r)
      ↔ ((j : ℕ) × (j < 3) × (get_or (sound_bs_sched 3 (own p) j) 5 g ≡ p)))
    × ((j k : ℕ)
        → j < 3
        → k < 3
        → get_or (sound_bs_sched 3 (own p) j) 5 g ≡ p
        → get_or (sound_bs_sched 3 (own p) k) 5 g ≡ p
        → j ≡ k)
unfolding pair_of
sound-aligned_example = sound-aligned 3 2 5 (own p) (own r) refl refl (omega arith)

abbrev one_of : ℕ → Driver
one_of channels = record {
  n_bs_sdrs = 1;
  n_ues = 1;
  n_refs = 0;
  has_hub = false;
  n_bs_chan = 1;
  n_ue_chan = channels;
}

abbrev sent : ℕ → Matrix numbers
sent users = record {
  n_dims = 2;
  n_rows = 2;
  n_cols = users;
  column = λ i. 1 ∷ 1 ∷ [];
  row = λ i. 1 ∷ 1 ∷ [];
  whole = 1 ∷ 1 ∷ [];
}

-- The first trigger is missed by the client, later ones are heard.
abbrev heard_later : ℕ → Attempt numbers
heard_later k = record { reads = λ j. fine_read; ticks = λ u. if k == 0 then 0 else 2 ^ 32 }

txrx_uplink_lem :
    txrx_uplink (one_of 1) (sent 1) false 2 3 heard_later
    ≡ some (finished (((1 ∷ 2 ∷ []) ∷ []) ∷ ((1 ∷ 2 ∷ []) ∷ []) ∷ []) 1)
unfolding txrx_uplink uplink_frames frames frame try_frame try_verdict is_good verify_signal_quality
    received all_triggered triggers zeros recv_all recv_frames recv_symbols keep store
    uplink_bs_sched count_receive all_rows antennas
txrx_uplink_lem = refl

txrx_uplink-IsGood_example :
    (1 ≡ count_receive (uplink_bs_sched 1))
    × All (IsHeard (one_of 1) (sent 1) heard_later) (((1 ∷ 2 ∷ []) ∷ []) ∷ ((1 ∷ 2 ∷ []) ∷ []) ∷ [])
    × (2 ≤ 2)
txrx_uplink-IsGood_example =
    txrx_uplink-IsGood (one_of 1) (sent 1) false 2 3 heard_later
      (((1 ∷ 2 ∷ []) ∷ []) ∷ ((1 ∷ 2 ∷ []) ∷ []) ∷ []) 1 (λ k j i e. (refl, refl)) txrx_uplink_lem

txrx_uplink-raises_example : txrx_uplink (one_of 2) (sent 2) false 5 50 heard_later ≡ none
txrx_uplink-raises_example =
    txrx_uplink-raises (one_of 2) (sent 2) false 4 50 heard_later (omega arith) refl (omega arith)
      (omega arith)

-- The count grows by 3 with the gains 52 and 50, and by 1 otherwise.
abbrev counted : ℕ → ℕ
counted k = if k == 0 then 1 else k + 3

set_opt_gains-best_example :
    (best : Best) × (set_opt_gains (one_of 1) 10 counted ≡ some best)
    × All
        (λ r. Counts r → r.new_triggers ≤ℤ best.current_max)
        (readings (combinations gains gains) counted 0 0)
    × (best.valid ≡ true → IsFrom best (readings (combinations gains gains) counted 0 0))
set_opt_gains-best_example = set_opt_gains-best (one_of 1) 10 counted (omega arith) refl

-- From the second trigger on, every answer is clear.
heard_later-IsClear : (k : ℕ) → IsClear (one_of 1) (sent 1) (heard_later (k + 1))
unfolding recv_all recv_frames recv_symbols keep store uplink_bs_sched count_receive
heard_later-IsClear k = (
  λ i lo hi. refl,
  λ i lo hi. let later : (k + 1 == 0) ≡ false = ground arith in rw later (omega arith),
)

uplink_frames-full_example :
    (found : List (Attempt numbers)) × (uplink_frames (one_of 1) (sent 1) 3 2 heard_later
      ≡ some found)
    × (length found ≡ 3)
uplink_frames-full_example =
    uplink_frames-full (one_of 1) (sent 1) 0 heard_later refl (omega arith) 3 2
      (λ k. (1, omega arith, heard_later-IsClear k))
