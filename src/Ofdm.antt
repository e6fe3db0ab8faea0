-- ===== src/Ofdm.antt =====
-- PYTHON/IrisUtils/ofdmtxrx.py: the constellations and the symbols of the OFDM library.
pub mod Constellation
pub mod Levels
pub mod Margin
pub mod Symbols
pub mod Received
pub mod Link
mod Tests
