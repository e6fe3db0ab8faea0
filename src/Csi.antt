-- ===== src/Csi.antt =====
-- PYTHON/IrisUtils/hdf5_lib.py and channel_analysis.py: the channel state of recorded pilots.
pub mod Pilots
pub mod Windows
pub mod Chunks
pub mod Nodes
pub mod References
mod Tests
mod NodesTests
