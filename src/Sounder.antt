-- ===== src/Sounder.antt =====
-- PYTHON/DEMOS/SOUNDER_TXRX.py: the sounder of one base station and one client.
pub mod Plan
pub mod Threads
pub mod Aligned
pub mod Bursts
pub mod Files
mod Tests
