-- ===== src/Siso.antt =====
-- PYTHON/DEMOS/SISO_OFDM.py: one radio sends an OFDM signal to another.
pub mod Signal
pub mod Receiver
pub mod Picked
pub mod Windows
pub mod Received
pub mod Link
pub mod Errors
pub mod Gains
mod Tests
