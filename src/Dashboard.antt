-- ===== src/Dashboard.antt =====
-- The health dashboard of the base station (WEBGUI/): the scan of the network, the readings of
-- the sensors, the alarms, the monitoring loop and the web socket.
pub mod Scan
pub mod Sensors
pub mod Checks
pub mod Decimal
pub mod Emails
pub mod Monitor
pub mod Connect
