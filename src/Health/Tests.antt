-- ===== src/Health/Tests.antt =====
-- Runs of PYTHON/IrisUtils/iris_health_monitor.py on three radios.
use Prim.Native.String.{String}
use houdini_lab.Common.{
  ℕ, ◌*◌, ◌≡◌, refl, true, false, Option, none, some, List, [], ◌∷◌, map, arith,
}
use houdini_lab.Common.Int.{ℤ, pos, negsuc, ◌+ℤ◌}
use houdini_lab.Common.Text.{Text, codes, text_eq, starts_with, find, contains}
use houdini_lab.Health.Result.{ok}
use houdini_lab.Health.Irises.{
  Sdr, Irises, only_irises, frontend_of, prepare_irises, open_sdrs, pick_golden, golden_of,
  remove_irises, index,
}
use houdini_lab.Health.Frontends.{prepare_irises-shifted}
use houdini_lab.Health.Receiver.{Reading, a, b, Row, test_receiver}
use houdini_lab.Health.Rows.{verdicts}
use houdini_lab.Health.Verdicts.{all_pass, test_receiver-verdicts}
use houdini_lab.Health.Transmitter.{test_transmitter}
use houdini_lab.Health.Broadcast.{all_heard, test_transmitter-heard}
use houdini_lab.Health.Session.{Options, Radios, Report, iris_health_monitor}
use houdini_lab.Health.Report.{iris_health_monitor-both_logged, iris_health_monitor-results}

abbrev radio : String → String → Sdr
radio serial frontend = record {
  serial = codes serial;
  revision = codes "Iris030";
  frontend = codes frontend;
}

abbrev hub : Sdr
hub = record { serial = codes "FH1"; revision = codes "Hub"; frontend = codes "" }

abbrev network : List Sdr
network = radio "RF1" "CBRS" ∷ hub ∷ radio "RF2" "" ∷ radio "RF3" "CBRS" ∷ []

abbrev nothing : Text → Option Sdr
nothing s = none

-- What is left with RF1 as the golden one.
abbrev units : Irises
units = record {
  uut_sdrs = radio "RF2" "" ∷ radio "RF3" "CBRS" ∷ [];
  uut_serials = codes "RF2" ∷ codes "RF3" ∷ [];
  uut_frontends = codes "CBRS" ∷ codes "" ∷ codes "CBRS" ∷ [];
  golden_sdr = radio "RF1" "CBRS";
  golden_serial = codes "RF1";
}

prepared : prepare_irises network nothing [] [] [] ≡ ok units
unfolding prepare_irises open_sdrs only_irises pick_golden golden_of remove_irises index frontend_of
    text_eq contains find starts_with
prepared = refl

prepare_irises-shifted_example :
    (s : Irises) × (prepare_irises network nothing [] [] [] ≡ ok s)
    × (s.golden_sdr ≡ radio "RF1" "CBRS")
    × (s.golden_serial ≡ codes "RF1")
    × (s.uut_sdrs ≡ radio "RF2" "" ∷ radio "RF3" "CBRS" ∷ [])
    × (s.uut_frontends
        ≡ frontend_of (radio "RF1" "CBRS")
          ∷ map frontend_of (radio "RF2" "" ∷ radio "RF3" "CBRS" ∷ []))
unfolding only_irises contains find starts_with
prepare_irises-shifted_example =
    prepare_irises-shifted (radio "RF1" "CBRS") (radio "RF2" "" ∷ radio "RF3" "CBRS" ∷ []) network
      nothing refl

-- A power that grows with the gain, 1 dB a step from -50 dB.
abbrev grows : ℕ → Reading
grows gain = record {
  fft_pwr_db_1 = negsuc 49999 +ℤ pos (1000 * gain);
  fft_pwr_db_2 = negsuc 59999 +ℤ pos (1000 * gain);
  noise_floor_1 = negsuc 89999;
  noise_floor_2 = negsuc 89999;
}

-- -18 dB
abbrev limit : ℤ
limit = negsuc 17999

test_receiver-verdicts_example :
    (lo : ℕ) × (hi : ℕ) × (rows : List Row) × (test_receiver limit false 1 3600000000
        (λ i. grows)
        units
      ≡ ok (all_pass limit false 1 3600000000 (λ i. grows) units 0 units.uut_serials, lo, hi, rows))
    × (verdicts a rows ≡ 2)
    × (verdicts b rows ≡ 2)
test_receiver-verdicts_example =
    test_receiver-verdicts limit false 1 3600000000 (λ i. grows) units (codes "RF2")
      (codes "RF3" ∷ []) (omega arith) refl (omega arith) (omega arith)

test_transmitter-heard_example :
    (lo : ℕ) × (hi : ℕ) × (rows : List Row) × (test_transmitter limit false
        (codes "A")
        1
        3600000000
        (λ i. λ ch. grows)
        units
      ≡ ok (
        all_heard limit false (codes "A") 1 3600000000 (λ i. λ ch. grows) units 0 units.uut_serials,
        lo,
        hi,
        rows,
      ))
test_transmitter-heard_example =
    test_transmitter-heard limit false (codes "A") 1 3600000000 (λ i. λ ch. grows) units
      (codes "RF2") (codes "RF3" ∷ []) (omega arith) refl (omega arith) (omega arith)

abbrev options : Options
options = record {
  en_logging = true;
  freq = 3600000000;
  uut_serials = [];
  golden_serial = [];
  gain_step = 1;
  golden_ant = codes "A";
  rx_pwr_limit = limit;
  rm_from_uut_serials = [];
  detailed_logs = false;
  test_tx_only = false;
  test_rx_only = false;
  rx_name = codes "rx.csv";
  tx_name = codes "tx.csv";
}

abbrev radios : Radios
radios = record {
  network = network;
  open_sdr = nothing;
  receive = λ i. grows;
  transmit = λ i. λ ch. grows;
}

iris_health_monitor-results_example :
    (rep : Report) × (iris_health_monitor options radios ≡ ok rep)
    × (rep.receiver
        ≡ some (all_pass limit false 1 3600000000 (λ i. grows) units 0 units.uut_serials))
    × (rep.transmitter
        ≡ some (
            all_heard limit false
              (codes "A")
              1
              3600000000
              (λ i. λ ch. grows)
              units
              0
              units.uut_serials))
iris_health_monitor-results_example =
    iris_health_monitor-results options radios units (codes "RF2") (codes "RF3" ∷ []) refl refl
      (omega arith) prepared refl

comes_to : (rep : Report) × (iris_health_monitor options radios ≡ ok rep)
comes_to =
    let (rep, e, r, t) =
      iris_health_monitor-results options radios units (codes "RF2") (codes "RF3" ∷ []) refl refl
        (omega arith) prepared refl in
    (rep, e)

iris_health_monitor-both_logged_example :
    (options.en_logging ≡ true) × (options.test_tx_only ≡ options.test_rx_only)
iris_health_monitor-both_logged_example =
    iris_health_monitor-both_logged options radios comes_to.0 comes_to.1
