-- ===== src/Health.antt =====
-- PYTHON/IrisUtils/iris_health_monitor.py: the test of the Iris modules against a golden one.
pub mod Result
pub mod Irises
pub mod Frontends
pub mod Gains
pub mod Receiver
pub mod Limits
pub mod Sweep
pub mod Rows
pub mod Verdicts
pub mod Transmitter
pub mod Channel
pub mod Broadcast
pub mod Session
pub mod Report
mod Tests
pub mod Logs
pub mod LogAxes
pub mod TxLog
pub mod TxAxes
mod LogTests
