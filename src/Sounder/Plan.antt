-- ===== src/Sounder/Plan.antt =====
-- PYTHON/DEMOS/SOUNDER_TXRX.py: what siso_sounder derives from its options, the checks of main, and
-- the settings that the signal handler writes.
use houdini_lab.Mimo.Tdd.{symbol_time}
use houdini_lab.Common.{
  ℕ, Bool, if◌then◌else◌, Option, List, ◌+◌, ◌==◌, ◌∷◌, some, none, false, [], replicate, ◌-◌, ltb,
  ◌++◌, true,
}
use houdini_lab.Common.Options.{◌>>=◌}
use houdini_lab.Mimo.Calls.{Slot, b, g, p, r, t}

pub record Options : Type 0 where
  pub num_samps : ℕ
  pub num_syms : ℕ
  pub tx_sym_num : ℕ
  pub prefix_length : ℕ
  pub postfix_length : ℕ
  pub both_channels : Bool
  pub wait_trigger : Bool
  pub use_trig : Bool
  pub tx_power_loop : Bool

-- A text repeated a negative number of times is empty, as a difference that stops at 0 has it.
unfoldable pub bsched : Bool → ℕ → ℕ → List Slot
bsched both num_syms tx_sym_num =
    if both
    then b
      ∷ g
      ∷ r
      ∷ r
      ∷ (replicate (num_syms - tx_sym_num - 5) g ++ (replicate tx_sym_num r ++ (g ∷ [])))
    else b
      ∷ g
      ∷ r
      ∷ (replicate (num_syms - tx_sym_num - 4) g ++ (replicate tx_sym_num r ++ (g ∷ [])))

unfoldable pub msched : Bool → ℕ → ℕ → List Slot
msched both num_syms tx_sym_num =
    if both
    then g
      ∷ g
      ∷ p
      ∷ p
      ∷ (replicate (num_syms - tx_sym_num - 5) g ++ (replicate tx_sym_num t ++ (g ∷ [])))
    else g
      ∷ g
      ∷ p
      ∷ (replicate (num_syms - tx_sym_num - 4) g ++ (replicate tx_sym_num t ++ (g ∷ [])))

pub data FrameMode : Type 0 where
  free_running : FrameMode
  triggered : FrameMode
  continuous_resync : FrameMode

unfoldable pub frame_mode : Options → FrameMode
frame_mode o =
    if o.use_trig then free_running else if o.wait_trigger then triggered else continuous_resync

pub record Plan : Type 0 where
  pub symbol_size : ℕ
  pub base_frames : List Slot
  pub beacon_start : ℕ
  pub beacon_stop : ℕ
  pub mode : FrameMode
  pub client_frames : List Slot
  pub num_ant : ℕ
  pub ue_time : Option ℕ
  pub start_symbol : ℕ

-- The start of the client after a beacon of 128 samples, set only without the chain's triggers.
unfoldable pub ue_trigger : Options → ℕ → Option (Option ℕ)
ue_trigger o sym_samp =
    let time = do w ← symbol_time (128 + 200) sym_samp; some (some w)
    in if o.use_trig then some none else time

-- The settings of the power loop read two names that have no value.
unfoldable pub siso_sounder : Options → Option Plan
siso_sounder o =
    let sym_samp = o.num_samps + o.prefix_length + o.postfix_length in
    do
      time ← ue_trigger o sym_samp
      if o.tx_power_loop
          then none
          else some (record {
            symbol_size = sym_samp;
            base_frames = bsched o.both_channels o.num_syms o.tx_sym_num;
            beacon_start = o.prefix_length;
            beacon_stop = o.prefix_length + 128;
            mode = frame_mode o;
            client_frames = msched o.both_channels o.num_syms o.tx_sym_num;
            num_ant = if o.both_channels then 2 else 1;
            ue_time = time;
            start_symbol = o.num_syms - o.tx_sym_num - 1;
          })

-- The checks of main: whether the sounder is started.
unfoldable pub starts : ℕ → ℕ → Bool
starts freq txgain = if freq == 0 then false else if ltb 81 txgain then false else true

pub data Node : Type 0 where
  base : Node
  client : Node

pub data Setting : Type 0 where
  corr_disabled : Setting
  tpc_disabled : Setting
  reset_data_logic : Setting
  tdd_disabled : Setting
  tdd_mode_off : Setting
  agc_disabled : Setting

pub record Written : Type 0 where
  pub node : Node
  pub setting : Setting

abbrev pub to : Node → Setting → Written
to n s = record { node = n; setting = s }

-- Both nodes stop, after the correlator and the power control of the client.
unfoldable pub signal_handler : Bool → List Written
signal_handler use_trig =
    (if use_trig then [] else to client corr_disabled ∷ [])
    ++ (to client tpc_disabled
        ∷ to base reset_data_logic
        ∷ to base tdd_disabled
        ∷ to base tdd_mode_off
        ∷ to client reset_data_logic
        ∷ to client tdd_disabled
        ∷ to client tdd_mode_off
        ∷ to client agc_disabled
        ∷ [])
