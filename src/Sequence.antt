-- ===== src/Sequence.antt =====
-- PYTHON/IrisUtils/generate_sequence.py: the training sequences.
pub mod Prefix
pub mod Zadoff
pub mod Prime
pub mod Layout
mod Tests
