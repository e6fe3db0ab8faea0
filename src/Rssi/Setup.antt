-- ===== src/Rssi/Setup.antt =====
-- PYTHON/IrisUtils/init_fncs.py, agc_init, with the addresses of macros.py: the gain control and the
-- packet detection of the FPGA. The registers are a function of the address.
use houdini_lab.Common.{ℕ, ◌≡◌, refl, List, [], ◌∷◌, ◌==◌, if◌then◌else◌}

abbrev Fpga : Type 0
Fpga = ℕ → ℕ

unfoldable write_fpga : ℕ → ℕ → Fpga → Fpga
write_fpga a v regs i = if i == a then v else regs i

record Write : Type 0 where
  address : ℕ
  written : ℕ

unfoldable write_all : List Write → Fpga → Fpga
write_all [] regs = regs
write_all (w ∷ ws) regs = write_all ws (write_fpga (w.address) (w.written) regs)

abbrev write : ℕ → ℕ → Write
write a v = record { address = a; written = v }

unfoldable agc_init_writes : ℕ → ℕ → List Write
agc_init_writes rssi_target_idx agc_en =
    write 232 0
    ∷ write 236 1
    ∷ write 240 8000
    ∷ write 244 3
    ∷ write 248 10
    ∷ write 256 20
    ∷ write 264 30
    ∷ write 260 3
    ∷ write 252 rssi_target_idx
    ∷ write 268 0
    ∷ write 236 0
    ∷ write 232 agc_en
    ∷ write 316 80
    ∷ write 288 500
    ∷ write 292 5
    ∷ write 296 1
    ∷ write 300 1
    ∷ write 300 0
    ∷ []

unfoldable agc_init : ℕ → ℕ → Fpga → Fpga
agc_init rssi_target_idx agc_en regs = write_all (agc_init_writes rssi_target_idx agc_en) regs

-- The set-up ends with the control enabled as asked, its reset cleared, the target index set, the
-- packet detection enabled and its flag of a new frame cleared, whatever the registers held.
agc_init_lem :
    (rssi_target_idx agc_en : ℕ) (regs : Fpga)
    → (agc_init rssi_target_idx agc_en regs 232 ≡ agc_en)
      × (agc_init rssi_target_idx agc_en regs 236 ≡ 0)
      × (agc_init rssi_target_idx agc_en regs 252 ≡ rssi_target_idx)
      × (agc_init rssi_target_idx agc_en regs 296 ≡ 1)
      × (agc_init rssi_target_idx agc_en regs 300 ≡ 0)
unfolding agc_init agc_init_writes write_all write_fpga
agc_init_lem rssi_target_idx agc_en regs = (refl, refl, refl, refl, refl)
