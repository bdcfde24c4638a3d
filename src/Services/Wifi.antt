-- ===== src/Services/Wifi.antt =====
-- components/blusys/src/services/connectivity/wifi.c: a station that reconnects by itself.
pub mod Reason
pub mod Defs
pub mod Sections
pub mod Run
pub mod Retries
pub mod Closing
pub mod Open
pub mod Opened
mod Tests
