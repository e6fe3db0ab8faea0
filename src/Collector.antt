-- ===== src/Collector.antt =====
-- PYTHON/IrisUtils/csi_lib.py: the collection of channel state by the base station and its clients.
pub mod Schedule
pub mod Slots
pub mod Bursts
pub mod Delays
pub mod Synced
mod Tests
