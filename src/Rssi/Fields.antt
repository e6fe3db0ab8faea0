-- ===== src/Rssi/Fields.antt =====
-- PYTHON/IrisUtils/digital_rssi.py, setUpDigitalRssiMode: the fields of the registers that it leaves.
use houdini_lab.Common.{
  ℕ, zero, suc, ◌+◌, ◌*◌, ◌≡◌, ◌≢◌, refl, Bool, true, false, ◌&&◌, ◌||◌, arith, if◌then◌else◌,
}
use houdini_lab.Rssi.Words.{Word, word, bit, bit-&, bit-∣}
use houdini_lab.Rssi.Registers.{
  Registers, write_register, clear_bits, set_bits, set_up_digital_rssi_mode,
}

-- The number in the bits of a word from `low` on, `width` of them.
unfoldable pub field_value : Word → ℕ → ℕ → ℕ
field_value w low zero = 0
field_value w low (suc width) = (if bit w low then 1 else 0) + 2 * field_value w (suc low) width

and_false : (b : Bool) → (b && false) ≡ false
and_false true = refl
and_false false = refl

or_true : (b : Bool) → (b || true) ≡ true
or_true true = refl
or_true false = refl

ruleset bits = (bit-&, bit-∣, and_false, or_true)

-- The set-up leaves the fields that its comments name: access to chain A (0x0020[1:0] = 1), the AGC
-- not bypassed (0x040C[6] = 0), in the RSSI mode (0x040A[13:12] = 1) and in normal operation
-- (0x040A[15:14] = 0), the captured value (0x0400[14:13] = 0) and the window (0x040A[2:0] = 3).
pub set_up_digital_rssi_mode-fields :
    (regs : Registers)
    → (field_value (set_up_digital_rssi_mode regs 32) 0 2 ≡ 1)
      × (field_value (set_up_digital_rssi_mode regs 1036) 6 1 ≡ 0)
      × (field_value (set_up_digital_rssi_mode regs 1034) 12 2 ≡ 1)
      × (field_value (set_up_digital_rssi_mode regs 1034) 14 2 ≡ 0)
      × (field_value (set_up_digital_rssi_mode regs 1024) 13 2 ≡ 0)
      × (field_value (set_up_digital_rssi_mode regs 1034) 0 3 ≡ 3)
unfolding set_up_digital_rssi_mode clear_bits set_bits write_register field_value word
set_up_digital_rssi_mode-fields regs =
    (simp bits, simp bits, simp bits, simp bits, simp bits, simp bits)

-- The set-up writes four registers and leaves the others.
pub set_up_digital_rssi_mode-others :
    (regs : Registers) (a : ℕ)
    → a ≢ 32
    → a ≢ 1036
    → a ≢ 1034
    → a ≢ 1024
    → set_up_digital_rssi_mode regs a ≡ regs a
unfolding set_up_digital_rssi_mode clear_bits set_bits write_register
set_up_digital_rssi_mode-others regs a n1 n2 n3 n4 = ground arith
