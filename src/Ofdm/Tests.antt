-- ===== src/Ofdm/Tests.antt =====
-- Runs of PYTHON/IrisUtils/ofdmtxrx.py.
use houdini_lab.Common.{ℕ, zero, suc, ◌≡◌, refl, some, List, [], ◌∷◌, map, arith, replicate}
use houdini_lab.Common.Int.{pos}
use houdini_lab.Ofdm.Constellation.{Iq, modulation, demodulation}
use houdini_lab.Ofdm.Symbols.{generate_data}
use houdini_lab.Ofdm.Margin.{Order, AllBelow, AllNear, demodulation-modulation}
use houdini_lab.Ofdm.Received.{receive}
use houdini_lab.Ofdm.Link.{generate_data-demodulation}

-- Some symbols of 64QAM.
abbrev vals : List ℕ
vals = 0 ∷ 5 ∷ 34 ∷ 63 ∷ []

demodulation-modulation_example :
    (sent : List Iq) × (modulation vals 64 ≡ some sent)
    × ((received : List Iq) → AllNear sent received → demodulation received 64 ≡ some vals)
demodulation-modulation_example =
    demodulation-modulation Order.qam64 vals
      (omega arith, (omega arith, (omega arith, (omega arith, tt))))

abbrev origin : Iq
origin = record { re = pos 0; im = pos 0 }

replicate-AllBelow : (n : ℕ) → AllBelow 4 (replicate n 2)
replicate-AllBelow zero = tt
replicate-AllBelow (suc n) = (omega arith, replicate-AllBelow n)

generate_data-demodulation_example :
    (signal : List Iq) × (generate_data (λ iq. iq) (λ xs. xs) origin [] 2 4 16 (replicate 96 2)
      ≡ some signal)
    × (demodulation (map (λ iq. iq) (receive (λ xs. xs) origin 16 2 signal)) 4
        ≡ some (replicate 96 2))
generate_data-demodulation_example =
    generate_data-demodulation (λ iq. iq) (λ iq. iq) (λ xs. xs) (λ xs. xs) (λ iq. refl) (λ xs. refl)
      (λ xs. refl) Order.qpsk origin [] 16 2 (replicate 96 2) (omega arith) refl
      (replicate-AllBelow 96)
