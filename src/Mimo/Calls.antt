-- ===== src/Mimo/Calls.antt =====
-- The calls of MATLAB/iris_py.py on a SoapySDR device, and runs of its methods: a method goes
-- from the attributes of the object to the calls it makes, and ends with a value or an exception.
use houdini_lab.Common.{ℕ, Bool, true, false, Option, none, some, List, [], ◌∷◌, ◌++◌}
use houdini_lab.Common.Int.{ℤ}

pub data Direction : Type 0 where
  tx : Direction
  rx : Direction

-- The symbols of a schedule: beacon, guard, pilot, receive, and data to transmit.
pub data Slot : Type 0 where
  b : Slot
  g : Slot
  p : Slot
  r : Slot
  t : Slot

-- The dictionary that is written as TDD_CONFIG.
pub data TddConf : Type 0 where
  base_station :
      (symbol_size max_frame beacon_start beacon_stop : ℕ) (dual_pilot : Bool) (frame : List Slot)
      → TddConf
  client : (symbol_size : ℕ) (frame : List Slot) → TddConf
  stopped : TddConf

pub data Setting : Type 0 where
  reset_data_logic : Setting
  disable_channel : Direction → ℕ → Setting
  trigger_gen : Setting
  corr_start : Setting
  sync_delays : Setting
  tdd_config : TddConf → Setting
  corr_config : ℕ → Setting
  tpc_disabled : Setting
  agc_config : Bool → Setting
  beacon_start : ℕ → Setting
  tx_sw_delay : ℕ → Setting
  tdd_mode : Setting

pub data Ram : Type 0 where
  corr_coe : Ram
  beacon_ram : Ram
  beacon_weights_a : Ram
  beacon_weights_b : Ram
  tx_ram_a : Ram
  tx_ram_b : Ram

-- Rates and frequencies are in quarters of a Hz: `rf` and `bb` are the parts of a frequency. The time of
-- the trigger is what SoapySDR's ticksToTimeNs makes of the ticks at the rate.
pub data Call : Type 0 where
  set_sample_rate : Direction → ℕ → ℕ → Call
  set_bandwidth : Direction → ℕ → ℕ → Call
  set_gain : Direction → ℕ → ℕ → Call
  set_rf : Direction → ℕ → ℤ → Call
  set_bb : Direction → ℕ → ℕ → Call
  set_antenna_trx : ℕ → Call
  set_dc_offset_mode : ℕ → Call
  write_setting : Setting → Call
  write_register : ℕ → ℕ → Call
  write_registers : Ram → ℕ → List ℕ → Call
  set_hardware_time : ℕ → Call
  set_trigger_time : (ticks rate : ℕ) → Call
  get_hardware_time : Call
  read_stream : Call
  setup_stream : Call
  activate_stream : Call
  deactivate_stream : Call
  close_stream : Call

-- The attributes of Iris_py. `open` is whether `self.sdr` is a device; streams are there or None.
pub record Iris : Type 0 where
  pub is_open : Bool
  pub sample_rate : Option ℕ
  pub trig_offset : ℕ
  pub n_samp : Option ℕ
  pub agc_en : Bool
  pub max_frames : ℕ
  pub tdd_sched : Option (List Slot)
  pub tx_stream : Bool
  pub rx_stream : Bool

pub data Run (A : Type 0) : Type 0 where
  done : A → Iris → List Call → Run A
  raised : List Call → Run A

abbrev pub after : {A : Type 0} → List Call → Run A → Run A
after cs (done a s ds) = done a s (cs ++ ds)
after cs (raised ds) = raised (cs ++ ds)

abbrev pub M : Type 0 → Type 0
M A = Iris → Run A

infixl 5 ◌>>=◌ ◌>>◌
abbrev pub ◌>>=◌ : {A B : Type 0} → M A → (A → M B) → M B
◌>>=◌ m f s = elim (m s) [ done a s' cs ↦ after cs (f a s') | raised cs ↦ raised cs ]

abbrev pub ◌>>◌ : {B : Type 0} → M (Unit {0}) → M B → M B
m >> k = m >>= λ _. k

abbrev pub return : {A : Type 0} → A → M A
return a s = done a s []

abbrev pub fail : {A : Type 0} → M A
fail s = raised []

-- A call on `self.sdr`, which raises if it is None.
abbrev pub call : Call → M (Unit {0})
call c s = elim s.is_open [ true ↦ done tt s (c ∷ []) | false ↦ raised [] ]

-- `if test: body`
abbrev pub when : Bool → M (Unit {0}) → M (Unit {0})
when true m = m
when false m = return tt

abbrev pub modify : (Iris → Iris) → M (Unit {0})
modify f s = done tt (f s) []

abbrev pub get : {A : Type 0} → (Iris → A) → M A
get f s = done (f s) s []

-- A value that has to be there.
abbrev pub given : {A : Type 0} → Option A → M A
given none = fail
given (some a) = return a

abbrev pub calls_of : {A : Type 0} → Run A → List Call
calls_of (done a s cs) = cs
calls_of (raised cs) = cs
