-- ===== src/Agc.antt =====
-- The automatic gain control of the receiver (PYTHON/IrisUtils/agc_fsm_iris.py) and the thread
-- that feeds it with samples (PYTHON/DEMOS/AGC_SIM_DEMO.py).
pub mod State
pub mod Gains
pub mod Machine
pub mod Table
pub mod Step
pub mod Effects
pub mod Invariant
pub mod Errors
pub mod Frame
pub mod Sample
pub mod Progress
pub mod Liveness
pub mod Skipped
mod Tests
pub mod Dispatch
