-- ===== src/Mimo.antt =====
-- MATLAB/iris_py.py, MATLAB/hub_py.py and MATLAB/mimo_driver.py: the drivers of the radios.
pub mod Calls
pub mod Iris
pub mod Samples
pub mod Tdd
pub mod Receive
pub mod Lifecycle
pub mod Schedule
pub mod Frames
pub mod Driver
pub mod Transmit
pub mod Downlink
pub mod Gains
mod Tests
