-- ===== src/Health/Report.antt =====
-- When iris_health_monitor of PYTHON/IrisUtils/iris_health_monitor.py comes to its results.
use houdini_lab.Common.{
  ◌<◌, ◌≤◌, ◌≡◌, refl, ◌∙◌, ap, Bool, true, false, ◌||◌, ◌&&◌, not, none, some, List, ◌∷◌, arith,
  length, if◌then◌else◌,
}
use houdini_lab.Common.Text.{Text}
use houdini_lab.Health.Result.{
  unbound_local_error, Result, ok, ◌>>=◌, or_raise, bind-Ends, through, or_raise-ok,
}
use houdini_lab.Health.Irises.{Irises, prepare_irises}
use houdini_lab.Health.Receiver.{test_receiver}
use houdini_lab.Health.Frontends.{prepare_irises-Aligned, length-serials}
use houdini_lab.Health.Verdicts.{all_pass, test_receiver-verdicts}
use houdini_lab.Health.Broadcast.{all_heard, test_transmitter-heard}
use houdini_lab.Health.Session.{
  Options, Locals, Radios, Report, unset, runs_rx, runs_tx, logged, receiver_part, transmitter_part,
  disp_params, iris_health_monitor,
}

locals_same : (x y : Locals) → ok x ≡ ok y → x ≡ y
locals_same x y h = cc

logged-some : (x : Bool) (name name' : Text) → logged x name ≡ some name' → x ≡ true
logged-some true name name' h = refl
logged-some false name name' h = cc

none_some : {A : Type 0} (x : A) {B : Type 0} → none ≡ some x → B
none_some x h = cc

-- The log of a test has a name only if the test ran.
ran :
    (x : Bool) (r : Result Locals) (t : Locals) (name : Text)
    → (if x then r else ok unset) ≡ ok t
    → t.log_name ≡ some name
    → (x ≡ true) × (r ≡ ok t)
ran true r t name h e = (refl, h)
ran false r t name h e = none_some name (ap (λ l. l.log_name) (locals_same unset t h) ∙ e)

receiver_part-log :
    (o : Options) (radios : Radios) (irises : Irises) (rx : Locals) (name : Text)
    → receiver_part o radios irises ≡ ok rx
    → rx.log_name ≡ some name
    → o.en_logging ≡ true
unfolding receiver_part
receiver_part-log o radios irises rx name h e =
    elim (bind-Ends
      (test_receiver o.rx_pwr_limit o.detailed_logs o.gain_step o.freq radios.receive irises) _ h) [
        | through r k l ↦
            logged-some o.en_logging o.rx_name name (ap (λ t. t.log_name) (locals_same _ _ l) ∙ e)
      ]

both_ran : (t r : Bool) → (r || (not t && not r)) ≡ true → (t || (not t && not r)) ≡ true → t ≡ r
both_ran true true h k = refl
both_ran true false h k = cc
both_ran false true h k = cc
both_ran false false h k = refl

names_bound :
    (o : Options) (rx tx : Locals) (rep : Report)
    → disp_params o rx tx ≡ ok rep
    → (name : Text) × (name' : Text) × (rx.log_name ≡ some name) × (tx.log_name ≡ some name')
unfolding disp_params
names_bound o rx tx rep h = elim (bind-Ends (or_raise rx.pf unbound_local_error) _ h) [
  | through pf_rx e k ↦ elim (bind-Ends (or_raise tx.pf unbound_local_error) _ k) [
    | through pf_tx e' k' ↦ elim (bind-Ends (or_raise rx.log_name unbound_local_error) _ k') [
      | through name e'' k'' ↦ elim (bind-Ends (or_raise tx.log_name unbound_local_error) _ k'') [
        | through name' e3 k3 ↦ (name, name', or_raise-ok _ _ e'', or_raise-ok _ _ e3)
      ]
    ]
  ]
]

-- The test comes to its results only with logging enabled, and only if both parts run: without
-- one of the two, the call that displays the results reads a local variable that has no value.
pub iris_health_monitor-both_logged :
    (o : Options) (radios : Radios) (rep : Report)
    → iris_health_monitor o radios ≡ ok rep
    → (o.en_logging ≡ true) × (o.test_tx_only ≡ o.test_rx_only)
unfolding iris_health_monitor
iris_health_monitor-both_logged o radios rep h =
    elim (bind-Ends
      (prepare_irises radios.network radios.open_sdr o.uut_serials o.golden_serial
        o.rm_from_uut_serials)
      _ h) [
        | through irises e k ↦
            elim (bind-Ends (if runs_rx o then receiver_part o radios irises else ok unset) _ k) [
              | through rx e' k' ↦
                  elim (bind-Ends (if runs_tx o then transmitter_part o radios irises else ok unset)
                    _ k') [
                      | through tx e'' k'' ↦
                          let (name, name', n, n') = names_bound o rx tx rep k'' in
                          let (rx_ran, r) = ran (runs_rx o) _ rx name e' n in
                          let (tx_ran, t) = ran (runs_tx o) _ tx name' e'' n' in
                          (
                            receiver_part-log o radios irises rx name r n,
                            both_ran o.test_tx_only o.test_rx_only rx_ran tx_ran,
                          )
                    ]
            ]
      ]

parts_run :
    (t r : Bool) → t ≡ r → ((r || (not t && not r)) ≡ true) × ((t || (not t && not r)) ≡ true)
parts_run true true h = (refl, refl)
parts_run true false h = cc
parts_run false true h = cc
parts_run false false h = (refl, refl)

-- With logging and both parts, on units that were found, the test comes to its results, and they
-- are those of its parts: the receivers passed if both channels of every unit receive the limit
-- at some gain, and the transmitters if the golden antenna does so from both channels of every
-- unit.
pub iris_health_monitor-results :
    (o : Options) (radios : Radios) (irises : Irises) (serial : Text) (serials : List Text)
    → o.en_logging ≡ true
    → o.test_tx_only ≡ o.test_rx_only
    → 0 < o.gain_step
    → prepare_irises radios.network radios.open_sdr o.uut_serials o.golden_serial
        o.rm_from_uut_serials
      ≡ ok irises
    → irises.uut_serials ≡ serial ∷ serials
    → (rep : Report) × (iris_health_monitor o radios ≡ ok rep)
      × (rep.receiver
          ≡ some (
              all_pass o.rx_pwr_limit o.detailed_logs o.gain_step o.freq radios.receive irises 0
                irises.uut_serials))
      × (rep.transmitter
          ≡ some (
              all_heard o.rx_pwr_limit o.detailed_logs o.golden_ant o.gain_step o.freq
                radios.transmit irises 0 irises.uut_serials))
unfolding iris_health_monitor receiver_part transmitter_part disp_params
iris_health_monitor-results o radios irises serial serials logging same p found units =
    let aligned = prepare_irises-Aligned _ _ _ _ _ irises found in
    let h : length irises.uut_serials ≤ length irises.uut_sdrs =
      omega (arith, length-serials irises aligned) in
    let k : length irises.uut_sdrs ≤ length irises.uut_frontends =
      omega (arith, aligned.frontends) in
    let (lo, hi, rows, e, one, two) =
      test_receiver-verdicts o.rx_pwr_limit o.detailed_logs o.gain_step o.freq radios.receive irises
        serial serials p units h k in
    let (lo', hi', rows', e') =
      test_transmitter-heard o.rx_pwr_limit o.detailed_logs o.golden_ant o.gain_step o.freq
        radios.transmit irises serial serials p units h k in
    let (rx_runs, tx_runs) = parts_run o.test_tx_only o.test_rx_only same in
    (
      record {
        receiver = some _;
        transmitter = some _;
        receiver_log = some o.rx_name;
        transmitter_log = some o.tx_name;
      },
      rw (found, ◌>>=◌, rx_runs, tx_runs, e, e', logging),
      refl,
      refl,
    )
