-- ===== src/Mimo/Driver.antt =====
-- MATLAB/mimo_driver.py and MATLAB/hub_py.py: the class MIMODriver, as the list of the methods it
-- calls on its radios. An exception is none.
use houdini_lab.Mimo.Samples.{Samples}
use houdini_lab.Common.{
  ℕ, Bool, ◌*◌, List, Option, [], if◌then◌else◌, ◌∷◌, some, ◌++◌, suc, ◌==◌, zero, none,
}
use houdini_lab.Common.Options.{◌>>=◌}
use houdini_lab.Mimo.Lifecycle.{
  Method, trigger, uncorrelate, tx_gain_of, rx_gain_of, gain_control, delays, reset_time,
  set_up_stream, beacon_to_ram, shut,
}

pub data Radio : Type 0 where
  bs : ℕ → Radio
  ue : ℕ → Radio
  ref : ℕ → Radio
  hub : Radio

-- A method of Hub_py is the method of the same name of an Iris_py.
pub record Step (np : Samples) : Type 0 where
  pub radio : Radio
  pub method : Method np

pub record Driver : Type 0 where
  pub n_bs_sdrs : ℕ
  pub n_ues : ℕ
  pub n_refs : ℕ
  pub has_hub : Bool
  pub n_bs_chan : ℕ
  pub n_ue_chan : ℕ

abbrev pub n_users : Driver → ℕ
n_users d = d.n_ues * d.n_ue_chan

abbrev pub n_bs_antenna : Driver → ℕ
n_bs_antenna d = d.n_bs_sdrs * d.n_bs_chan

-- The hub, or else the first board, `self.bs_obj[0]`.
unfoldable pub first_radio : Driver → Option Radio
first_radio d = if d.has_hub then some hub else if d.n_bs_sdrs == 0 then none else some (bs 0)

abbrev ones : List ℕ
ones = 1 ∷ 1 ∷ []

module _ {np : Samples} where
  abbrev pub on : Radio → Method np → Step np
  on r m = record { radio = r; method = m }

  -- `[radio.method(i) for i, radio in enumerate(radios)]`, from i on.
  unfoldable pub each_from : ℕ → ℕ → (ℕ → Radio) → (ℕ → Method np) → List (Step np)
  each_from zero i role m = []
  each_from (suc n) i role m = on (role i) (m i) ∷ each_from n (suc i) role m

  abbrev pub each : ℕ → (ℕ → Radio) → Method np → List (Step np)
  each n role m = each_from n 0 role (λ i. m)

  unfoldable pub burn_beacons : Driver → Bool → Option (List (Step np))
  burn_beacons d beamsweep =
      if beamsweep
      then some (each d.n_bs_sdrs bs (beacon_to_ram ones ones))
      else if d.n_bs_sdrs == 0
      then none
      else some (on (bs 0) (beacon_to_ram ones ones) ∷ [])

  -- The constructor, after the radios are made.
  unfoldable pub init_driver : Driver → Bool → Option (List (Step np))
  init_driver d beamsweep = do
    r ← first_radio d
    beacons ← burn_beacons d beamsweep
    some (
        each d.n_refs ref set_up_stream
        ++ (on r delays ∷ []
            ++ (each d.n_ues ue gain_control
                ++ (each d.n_ues ue set_up_stream
                    ++ (each d.n_bs_sdrs bs set_up_stream ++ beacons)))))

  unfoldable pub bs_trigger : Driver → Option (List (Step np))
  bs_trigger d = do r ← first_radio d; some (on r trigger ∷ [])

  unfoldable pub reset_frame : Driver → List (Step np)
  reset_frame d =
      each d.n_ues ue reset_time ++ (each d.n_bs_sdrs bs reset_time ++ each d.n_refs ref reset_time)

  unfoldable pub close_driver : Driver → List (Step np)
  close_driver d = each d.n_ues ue shut ++ (each d.n_bs_sdrs bs shut ++ each d.n_refs ref shut)

  -- Parameter 1 is the gain of the transmitters, 2 that of the receivers; another does nothing.
  unfoldable pub update_sdr_params : Driver → ℕ → ℕ → Bool → List (Step np)
  update_sdr_params d param value is_bs =
      let radios = λ (m : Method np). if is_bs then each d.n_bs_sdrs bs m else each d.n_ues ue m in
      if param == 1
      then radios (tx_gain_of value)
      else if param == 2
      then radios (rx_gain_of value)
      else []

  -- The end of a transmission; `register u` is the register 60 of client u.
  unfoldable pub end_transmission : Driver → (ℕ → ℕ) → List (Step np)
  end_transmission d register =
      each_from d.n_ues 0 ue (λ u. uncorrelate (register u)) ++ reset_frame d
