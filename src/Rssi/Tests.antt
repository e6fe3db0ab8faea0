-- ===== src/Rssi/Tests.antt =====
-- PYTHON/IrisUtils/digital_rssi.py: runs on registers full of ones.
use houdini_lab.Common.{◌≡◌, refl, ◌==◌, if◌then◌else◌}
use houdini_lab.Rssi.Words.{word, value, ◌&◌, ◌∣◌, ◌<<◌}
use houdini_lab.Rssi.Registers.{
  Registers, write_register, clear_bits, set_bits, set_up_digital_rssi_mode, trigger_read,
  read_rssi, get_digital_rssi,
}

abbrev ones : Registers
ones a = word 16 65535

-- The chip puts 0x1234 into 0x040F and 0x0007 into 0x040E.
abbrev capture : Registers → Registers
capture regs a = if a == 1039 then word 16 4660 else if a == 1038 then word 16 7 else regs a

get_digital_rssi_lem : get_digital_rssi capture ones ≡ 18643
unfolding get_digital_rssi read_rssi word value ◌&◌ ◌∣◌ ◌<<◌
get_digital_rssi_lem = refl

-- A reading of 0 is reported as 1.
get_digital_rssi_zero : get_digital_rssi (λ regs a. word 16 0) ones ≡ 1
unfolding get_digital_rssi read_rssi word value ◌&◌ ◌∣◌ ◌<<◌
get_digital_rssi_zero = refl

trigger_read_lem : value (trigger_read ones 1024) ≡ 65535
unfolding trigger_read clear_bits set_bits write_register word value ◌&◌ ◌∣◌
trigger_read_lem = refl

set_up_lem : value (set_up_digital_rssi_mode ones 1034) ≡ 8187
unfolding set_up_digital_rssi_mode clear_bits set_bits write_register word value ◌&◌ ◌∣◌
set_up_lem = refl
