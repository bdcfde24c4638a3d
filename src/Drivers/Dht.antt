-- ===== src/Drivers/Dht.antt =====
-- components/blusys/src/drivers/dht.c: a DHT sensor of temperature and humidity.
pub mod Defs
pub mod Decode
pub mod Read
pub mod Tasks
pub mod Alone
pub mod Sampled
pub mod Open
pub mod Opened
mod Tests
