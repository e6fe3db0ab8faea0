-- ===== src/Recorder.antt =====
-- PYTHON/IrisUtils/data_recorder.py and file_rdwr.py: recorded samples, and their replay in
-- PYTHON/DEMOS/SISO_RX.py.
pub mod Frames
pub mod Replayed
pub mod Pickled
mod Tests
