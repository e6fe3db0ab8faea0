-- ===== src/Rssi.antt =====
-- PYTHON/IrisUtils/digital_rssi.py, init_fncs.py and type_conv.py: registers and words of bits.
pub mod Words
pub mod Registers
pub mod Bounds
pub mod Fields
pub mod Setup
pub mod Conversions
mod Tests
