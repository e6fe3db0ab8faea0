-- ===== src/Rssi/Registers.antt =====
-- PYTHON/IrisUtils/digital_rssi.py: the writes of the two functions. The registers are a function of
-- the address, and what the chip does on the capture trigger is a parameter.
use houdini_lab.Common.{ℕ, ◌==◌, if◌then◌else◌}
use houdini_lab.Rssi.Words.{Word, word, value, ◌&◌, ◌∣◌, ◌<<◌}

abbrev pub Registers : Type 0
Registers = ℕ → Word

unfoldable pub write_register : ℕ → Word → Registers → Registers
write_register a w regs i = if i == a then w else regs i

-- `sdr.writeRegister("LMS7IC", a, sdr.readRegister("LMS7IC", a) & mask)`
unfoldable pub clear_bits : ℕ → ℕ → Registers → Registers
clear_bits a mask regs = write_register a (regs a & word 16 mask) regs

-- `sdr.writeRegister("LMS7IC", a, sdr.readRegister("LMS7IC", a) | mask)`
unfoldable pub set_bits : ℕ → ℕ → Registers → Registers
set_bits a mask regs = write_register a (regs a ∣ word 16 mask) regs

-- The addresses are 0x0020 = 32, 0x0400 = 1024, 0x040A = 1034, 0x040C = 1036, 0x040E = 1038 and
-- 0x040F = 1039; the masks are 0xFFFC, 0x0001, 0xFFBF, 0xCFFF, 0x1000, 0x3FFF, 0x9FFF, 0xFFF8, 0x0003.
unfoldable pub set_up_digital_rssi_mode : Registers → Registers
set_up_digital_rssi_mode r0 =
    let r1 = clear_bits 32 65532 r0 in
    let r2 = set_bits 32 1 r1 in
    let r3 = clear_bits 1036 65471 r2 in
    let r4 = clear_bits 1034 53247 r3 in
    let r5 = set_bits 1034 4096 r4 in
    let r6 = clear_bits 1034 16383 r5 in
    let r7 = clear_bits 1024 40959 r6 in let r8 = clear_bits 1034 65528 r7 in set_bits 1034 3 r8

-- The trigger is bit 15 of 0x0400, cleared and set: masks 0x7FFF and 0x8000.
unfoldable pub trigger_read : Registers → Registers
trigger_read regs = set_bits 1024 32768 (clear_bits 1024 32767 regs)

-- The reading of 18 bits, under 0x3FFFF; its decibels are the logarithm of a quotient of it.
unfoldable pub read_rssi : Registers → ℕ
read_rssi regs = value (((regs 1039 << 2) ∣ (regs 1038 & word 16 3)) & word 18 262143)

unfoldable pub get_digital_rssi : (Registers → Registers) → Registers → ℕ
get_digital_rssi capture regs =
    let rssi = read_rssi (capture (trigger_read regs)) in if rssi == 0 then 1 else rssi
