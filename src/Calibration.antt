-- ===== src/Calibration.antt =====
-- PYTHON/IrisUtils/find_lts.py and sample_offset_cal.py: the LTS in a signal, and the calibration of
-- the boards' sample offsets by it.
pub mod Peaks
pub mod Pairs
pub mod Votes
pub mod Aligned
mod Tests
