-- ===== src/Rssi/Bounds.antt =====
-- PYTHON/IrisUtils/digital_rssi.py, getDigitalRSSI: the range of the readings.
use houdini_lab.Common.{◌≤◌, ◌≡◌, refl, arith}
use houdini_lab.Rssi.Words.{word, value, ◌&◌, ◌∣◌, ◌<<◌, value-&}
use houdini_lab.Rssi.Registers.{Registers, trigger_read, read_rssi, get_digital_rssi}

mask_lem : value (word 18 262143) ≡ 262143
unfolding word value
mask_lem = refl

read_rssi-le : (regs : Registers) → read_rssi regs ≤ 262143
unfolding read_rssi
read_rssi-le regs =
    let e = value-& ((regs 1039 << 2) ∣ (regs 1038 & word 16 3)) (word 18 262143) in
    let f = mask_lem in omega arith

-- Whatever the registers hold and whatever the chip does on the trigger, the reading is from 1 to
-- 0x3FFFF, so that its logarithm is defined.
get_digital_rssi-bounds :
    (capture : Registers → Registers) (regs : Registers)
    → (1 ≤ get_digital_rssi capture regs) × (get_digital_rssi capture regs ≤ 262143)
unfolding get_digital_rssi
get_digital_rssi-bounds capture regs =
    let e = read_rssi-le (capture (trigger_read regs)) in (ground arith, ground arith)
